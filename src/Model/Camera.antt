-- ===== src/Model/Camera.antt =====
-- `CameraSubject` of src/o3ds/model.cpp: a subject with a lens. `none` is the use of a null pointer.
use open3dstream.Base.Options.{◌>>=◌}
use open3dstream.Base.{ℕ, Option, none, some, true, ◌≡◌, refl, sym, ap, ◌∙◌, some_eq}
use open3dstream.Numerics.{Numerics}
use open3dstream.Model.Types.{Transform, Lens, Subject}
use open3dstream.Model.Wire.{WireSubject, WireUpdate}
use open3dstream.Model.Subject.{serialize, parse, parse_nodes}
use open3dstream.Model.Update.{serialize_update, parse_update}
use open3dstream.Model.Tracking.{Tracks, update-Tracks}
use open3dstream.Model.RoundTrip.{subject-copy}
use open3dstream.Model.Assertions.{
  NarrowsToNumber, serialize_assert, parse_assert, parse_update_assert, updates_sent_assert,
  parse_assert-serialize, updates_sent_assert-true, parse_update_assert-serialize_update,
}

-- `table Camera` and `table CameraUpdate`.
pub record WireCamera (A : Type 0) : Type 0 where
  pub data_of : Option (WireSubject A)
  pub film_back_width : A
  pub film_back_height : A
  pub aspect : A

pub record WireCameraUpdate (A : Type 0) : Type 0 where
  pub data_of : Option (WireUpdate A)
  pub focal_length : A
  pub focus_distance : A
  pub aperture : A

pub bind-some {ℓ κ} :
    {A : Type ℓ} {B : Type κ} (o : Option A) (f : A → Option B) (b : B)
    → (o >>= f) ≡ some b
    → (a : A) × (o ≡ some a) × (f a ≡ some b)
bind-some none f b e = absurd cc
bind-some (some a) f b e = (a, refl, e)

module _ (N : Numerics) where
  open N use {F, null}

  -- `CameraSubject::serialize`; the aspect is left to its default.
  unfoldable pub serialize_camera : Subject F → WireCamera F × Subject F
  unfolding serialize
  serialize_camera s =
      let (w, u) = serialize N s in
      (
        record {
          data_of = some w;
          film_back_width = s.lens.film_back_width;
          film_back_height = s.lens.film_back_height;
          aspect = null;
        },
        u,
      )

  -- `CameraSubject::parse`.
  unfoldable pub parse_camera : Transform F → WireCamera F → Subject F → Option (Subject F)
  unfolding parse
  parse_camera fresh w s = do
    d ← w.data_of
    u ← parse N fresh d s
    some (record u {
      lens = record u.lens {
        film_back_width = w.film_back_width;
        film_back_height = w.film_back_height;
      };
    })

  -- `CameraSubject::serializeUpdate`.
  unfoldable pub serialize_camera_update : F → ℕ → Subject F → WireCameraUpdate F × ℕ × Subject F
  unfolding serialize_update
  serialize_camera_update threshold count s =
      let (w, n, u) = serialize_update N threshold count s in
      (
        record {
          data_of = some w;
          focal_length = s.lens.focal_length;
          focus_distance = s.lens.focus_distance;
          aperture = s.lens.aperture;
        },
        n,
        u,
      )

  -- `CameraSubject::parseUpdate`.
  unfoldable pub parse_camera_update : WireCameraUpdate F → Subject F → Option (Subject F)
  unfolding parse_update
  parse_camera_update w s = do
    d ← w.data_of
    u ← parse_update N d s
    some (record u {
      lens = record u.lens {
        focal_length = w.focal_length;
        focus_distance = w.focus_distance;
        aperture = w.aperture;
      };
    })

  abbrev lens_of : Subject F → Lens F
  lens_of s = s.lens

  parse-lens :
      (fresh : Transform F) (w : WireSubject F) (s u : Subject F)
      → parse N fresh w s ≡ some u
      → u.lens ≡ s.lens
  unfolding parse
  parse-lens fresh w s u e =
      let (a, _, f) = bind-some w.name _ u e in
      let (b, _, g) = bind-some w.uuid _ u f in
      let (c, _, h) = bind-some w.nodes _ u g in
      let (d, _, i) = bind-some (parse_nodes N fresh c) _ u h in sym (ap lens_of (some_eq i))

  update-lens : (w : WireUpdate F) (s u : Subject F) → parse_update N w s ≡ some u → u.lens ≡ s.lens
  unfolding parse_update
  update-lens w s u e =
      let (a, _, f) = bind-some w.uuid _ u e in
      let (b, _, g) = bind-some w.translation _ u f in
      let (c, _, h) = bind-some w.rotation _ u g in
      let (d, _, i) = bind-some w.scale _ u h in sym (ap lens_of (some_eq i))

  abbrev pub with_film_back : Lens F → Subject F → Option (Subject F)
  with_film_back l u = some (record u {
    lens = record u.lens {
      film_back_width = l.film_back_width;
      film_back_height = l.film_back_height;
    };
  })

  abbrev pub with_focus : Lens F → Subject F → Option (Subject F)
  with_focus l u = some (record u {
    lens = record u.lens {
      focal_length = l.focal_length;
      focus_distance = l.focus_distance;
      aperture = l.aperture;
    };
  })

  -- What the receiver has of the lens after a full packet and an update.
  abbrev pub lens_sent : Lens F → Lens F → Lens F
  lens_sent sent held = record sent { aspect = held.aspect }

  -- Without the assertions.
  camera-lens :
      (fresh : Transform F) (threshold : F) (count : ℕ) (s r : Subject F)
      → (u v : Subject F) × (parse_camera fresh (serialize_camera s).0 r ≡ some u)
        × (parse_camera_update (serialize_camera_update threshold count (serialize_camera s).1).0 u
            ≡ some v)
        × (v.lens ≡ lens_sent s.lens r.lens)
        × Tracks N
            (serialize_camera_update threshold count (serialize_camera s).1).2.transforms
            v.transforms
  unfolding serialize_camera parse_camera serialize_camera_update parse_camera_update
  camera-lens fresh threshold count s r =
      let (u, p, a, b, c, t) = subject-copy N fresh s r in
      let sent = (serialize N s).1 in
      let held : Subject F = record u {
        lens = record u.lens {
          film_back_width = s.lens.film_back_width;
          film_back_height = s.lens.film_back_height;
        };
      } in
      let (v, q, k, d) = update-Tracks N threshold count sent held t in
      (
        held,
        record v {
          lens = record v.lens {
            focal_length = sent.lens.focal_length;
            focus_distance = sent.lens.focus_distance;
            aperture = sent.lens.aperture;
          };
        },
        ap (λ o. o >>= with_film_back s.lens) p,
        ap (λ o. o >>= with_focus sent.lens) q,
        ap
              (λ (l : Lens F). record l {
                focal_length = sent.lens.focal_length;
                focus_distance = sent.lens.focus_distance;
                aperture = sent.lens.aperture;
              })
              (update-lens (serialize_update N threshold count sent).0 held v q)
            ∙ ap (lens_sent s.lens) (parse-lens fresh (serialize N s).0 r u p),
        k,
      )

  -- The assertions of a full packet of a subject and then of an update of it, at the receiver of
  -- the first, and at the sender and the receiver `r` of the second.
  abbrev pub Asserted : F → ℕ → Subject F → Subject F → Type 0
  Asserted threshold count s r =
      let (w, t) = serialize N s in
      (parse_assert N w ≡ true)
      × (updates_sent_assert N threshold t.transforms ≡ true)
      × (parse_update_assert N (serialize_update N threshold count t).0 r ≡ true)

  -- A receiver of a full packet of a camera with finite translations, so that no assertion of
  -- `serialize` fails, and then of an update of it reads both, has every transform as the sender noted
  -- it to be sent, and has the sender's lens, but for the aspect, which stays what it was. No assertion
  -- of `parse`, `serializeUpdate` or `parseUpdate` fails, given the IEEE fact that the `float` next to a
  -- finite number is not a NaN.
  pub camera_roundtrip :
      (fresh : Transform F) (threshold : F) (count : ℕ) (s r : Subject F)
      → NarrowsToNumber N
      → serialize_assert N s ≡ true
      → (u v : Subject F) × (parse_camera fresh (serialize_camera s).0 r ≡ some u)
        × (parse_camera_update (serialize_camera_update threshold count (serialize_camera s).1).0 u
            ≡ some v)
        × (v.lens ≡ lens_sent s.lens r.lens)
        × Tracks N
            (serialize_camera_update threshold count (serialize_camera s).1).2.transforms
            v.transforms
        × Asserted threshold count s u
  camera_roundtrip fresh threshold count s r law finite =
      let (u, v, p, q, e, t) = camera-lens fresh threshold count s r in
      (
        u,
        v,
        p,
        q,
        e,
        t,
        (
          parse_assert-serialize N s law finite,
          updates_sent_assert-true N threshold (serialize N s).1.transforms,
          parse_update_assert-serialize_update N threshold count (serialize N s).1 u law,
        ),
      )
