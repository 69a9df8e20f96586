-- ===== src/Model/Tracking.antt =====
-- A receiver follows a sender through the updates of src/o3ds/model.cpp: what it holds is what the
-- sender noted as sent, narrowed to `float`.
pub mod Loops
use mathlib.Core.Path.{subst}
use open3dstream.Base.{
  get_elem?-map, get_elem?-unmap, get_elem?-length, ℕ, zero, suc, ◌+◌, ◌<◌, List, [], ◌∷◌, map,
  Option, some, none, Bool, true, false, get_elem?, set, length, ◌≡◌, ◌≢◌, refl, sym, ap, ◌∙◌, ◌⊎◌,
  inl, inr, arith, Option-cases, Bool-cases, some_eq, get_elem?-set_self, get_elem?-set_ne,
  length-set, length-map, not,
}
use open3dstream.Base.Int.{pos}
use open3dstream.Base.Buffers.{get_elem?-IsSome}
use open3dstream.Numerics.{Triple, Quad, Numerics}
use open3dstream.Model.Types.{Vector, Rotation, Transform, Message, Subject}
use open3dstream.Model.Transform.{vector_of, rotation_of, vector_sent, rotation_sent, all_finite}
use open3dstream.Model.Wire.{Changed, narrow_vector, narrow_rotation, read_vector, read_rotation}
use open3dstream.Model.Update.{
  translation_moved, rotation_moved, send_translation, send_rotation, sent_if, send, at_index,
  send_all, serialize_update, modify, apply, put_translation, put_rotation, put_scale, parse_update,
}
use open3dstream.Model.Tracking.Loops.{
  emit, put, translations-emit, rotations-emit, transforms-send, length-apply, get_elem?-apply,
}

module _ (N : Numerics) where
  open N use {F}

  abbrev pub float_triple : Triple F → Triple F
  float_triple v = narrow_vector N (record { value = v; last_sent = v })

  abbrev pub float_quad : Quad F → Quad F
  float_quad q = narrow_rotation N (record { value = q; last_sent = q })

  -- What the receiver holds of a transform.
  abbrev pub Follows : Transform F → Transform F → Type 0
  Follows t r =
      (r.translation.value ≡ float_triple t.translation.last_sent)
      × (r.rotation.value ≡ float_quad t.rotation.last_sent)

  abbrev pub Tracks : List (Transform F) → List (Transform F) → Type 0
  Tracks ts rs =
      (length rs ≡ length ts)
      × ((k : ℕ) (t r : Transform F)
          → get_elem? ts k ≡ some t
          → get_elem? rs k ≡ some r
          → Follows t r)

  -- After an update, a finite transform is held as it is, or has not moved by more than the
  -- threshold from what was sent.
  abbrev pub IsClose : F → Transform F → Transform F → Type 0
  IsClose threshold t r =
      all_finite N t ≡ true
      → ((r.translation.value ≡ float_triple t.translation.value)
          ⊎ (translation_moved N threshold t ≡ false))
        × ((r.rotation.value ≡ float_quad t.rotation.value)
            ⊎ (rotation_moved N threshold t ≡ false))

  updated : F → Transform F → Transform F → Transform F
  updated threshold t r =
      put N (put_rotation N) (send_rotation N threshold t)
        (put N (put_translation N) (send_translation N threshold t) r)

  translation-Sends :
      (threshold : F) (t : Transform F)
      → ((send_translation N threshold t ≡ none)
          × (all_finite N t ≡ true → translation_moved N threshold t ≡ false))
        ⊎ (send_translation N threshold t ≡ some (float_triple t.translation.value))
  unfolding send_translation narrow_vector
  translation-Sends threshold t = elim (Bool-cases (all_finite N t)) [
    | inr z ↦ inl (rw (z, send_translation) refl, λ e. absurd cc)
    | inl y ↦ elim (Bool-cases (translation_moved N threshold t)) [
      | inl m ↦ inr (rw (y, m, send_translation) refl)
      | inr m ↦ inl (rw (y, m, send_translation) refl, λ e. m)
    ]
  ]

  rotation-Sends :
      (threshold : F) (t : Transform F)
      → ((send_rotation N threshold t ≡ none)
          × (all_finite N t ≡ true → rotation_moved N threshold t ≡ false))
        ⊎ (send_rotation N threshold t ≡ some (float_quad t.rotation.value))
  unfolding send_rotation narrow_rotation
  rotation-Sends threshold t = elim (Bool-cases (all_finite N t)) [
    | inr z ↦ inl (rw (z, send_rotation) refl, λ e. absurd cc)
    | inl y ↦ elim (Bool-cases (rotation_moved N threshold t)) [
      | inl m ↦ inr (rw (y, m, send_rotation) refl)
      | inr m ↦ inl (rw (y, m, send_rotation) refl, λ e. m)
    ]
  ]

  updated-Follows :
      (threshold : F) (t r : Transform F)
      → Follows t r
      → Follows (send N threshold t) (updated threshold t r)
        × IsClose threshold t (updated threshold t r)
  unfolding updated send read_vector read_rotation vector_of rotation_of vector_sent rotation_sent
  updated-Follows threshold t r h = elim (translation-Sends threshold t) [
    | inl (a, c) ↦ elim (rotation-Sends threshold t) [
      | inl (b, d) ↦ rw (a, b, updated, send) ((h.0, h.1), λ e. (inr (c e), inr (d e)))
      | inr b ↦ rw (a, b, updated, send) ((h.0, refl), λ e. (inr (c e), inl refl))
    ]
    | inr a ↦ elim (rotation-Sends threshold t) [
      | inl (b, d) ↦ rw (a, b, updated, send) ((refl, h.1), λ e. (inl refl, inr (d e)))
      | inr b ↦ rw (a, b, updated, send) ((refl, refl), λ e. (inl refl, inl refl))
    ]
  ]

  AllClose : F → List (Transform F) → List (Transform F) → Type 0
  AllClose threshold ts rs =
      (k : ℕ) (t r : Transform F)
      → get_elem? ts k ≡ some t
      → get_elem? rs k ≡ some r
      → IsClose threshold t r

  received : F → List (Transform F) → List (Transform F) → List (Transform F)
  received threshold ts rs =
      apply N (put_rotation N) (emit N (send_rotation N threshold) 0 ts)
        (apply N (put_translation N) (emit N (send_translation N threshold) 0 ts) rs)

  received_at :
      (threshold : F) (ts rs : List (Transform F)) (k : ℕ) (t u : Transform F)
      → Tracks ts rs
      → get_elem? ts k ≡ some t
      → get_elem? (received threshold ts rs) k ≡ some u
      → Follows (send N threshold t) u × IsClose threshold t u
  unfolding received updated
  received_at threshold ts rs k t u h g e =
      let (r, x) = get_elem?-IsSome rs k (omega (arith, h.0, get_elem?-length ts k t g)) in
      let a =
        get_elem?-apply N (put_translation N) (send_translation N threshold) 0 k k ts rs t r
          (omega arith) g x in
      let b =
        get_elem?-apply N (put_rotation N) (send_rotation N threshold) 0 k k ts
          (apply N (put_translation N) (emit N (send_translation N threshold) 0 ts) rs) t _
          (omega arith) g a in
      subst (λ v. Follows (send N threshold t) v × IsClose threshold t v) (some_eq (sym b ∙ e))
        (updated-Follows threshold t r (h.1 k t r g x))

  received-Tracks :
      (threshold : F) (ts rs : List (Transform F))
      → Tracks ts rs
      → Tracks (map (send N threshold) ts) (received threshold ts rs)
        × AllClose threshold ts (received threshold ts rs)
  unfolding received AllClose
  received-Tracks threshold ts rs h = (
    (
      length-apply N (put_rotation N) (send_rotation N threshold) 0 ts _
          ∙ length-apply N (put_translation N) (send_translation N threshold) 0 ts rs
          ∙ h.0
          ∙ sym (length-map ts (send N threshold)),
      λ k t u g e.
          let (x, a, b) = get_elem?-unmap (send N threshold) ts k t g in
          subst (λ v. Follows v u) b (received_at threshold ts rs k x u h a e).0,
    ),
    λ k t u g e. (received_at threshold ts rs k t u h g e).1,
  )

  -- If a receiver has a sender's transforms as the sender noted them to be sent, then it reads the
  -- sender's next update, whatever the threshold, and has them so again. Of each finite transform it
  -- then has the translation as it is, narrowed to `float`, or the translation was not further than
  -- the threshold from the one last sent; and so for the rotation.
  pub update-Tracks :
      (threshold : F) (count : ℕ) (s r : Subject F)
      → Tracks s.transforms r.transforms
      → (u : Subject F) × (parse_update N (serialize_update N threshold count s).0 r ≡ some u)
        × Tracks (serialize_update N threshold count s).2.transforms u.transforms
        × ((k : ℕ) (t v : Transform F)
            → get_elem? s.transforms k ≡ some t
            → get_elem? u.transforms k ≡ some v
            → IsClose threshold t v)
  unfolding serialize_update parse_update apply AllClose received
  update-Tracks threshold count s r h =
      let p = send_all N threshold 0 s.error s.transforms in
      let us =
        apply N (put_rotation N) p.rotations
          (apply N (put_translation N) p.translations r.transforms) in
      let both : Tracks p.transforms us × AllClose threshold s.transforms us =
        rw
          (
            transforms-send N threshold 0 s.error s.transforms,
            translations-emit N threshold 0 s.error s.transforms,
            rotations-emit N threshold 0 s.error s.transforms,
          )
          (received-Tracks threshold s.transforms r.transforms h) in
      (record r { transforms = us }, refl, both.0, both.1)
