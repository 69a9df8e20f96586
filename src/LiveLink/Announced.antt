-- ===== src/LiveLink/Announced.antt =====
-- What the client of plugins/unreal/.../Open3DStreamSource.cpp is called with.
use mathlib.Core.Path.{subst}
use open3dstream.Base.Options.{◌>>=◌}
use open3dstream.Base.{
  ℕ, ◌+◌, ◌<◌, ◌≡◌, refl, sym, ap, ◌∙◌, List, [], ◌∷◌, Option, some, none, Bool, true, false, not,
  if◌then◌else◌, inl, inr, Bool-cases, some_eq, arith,
}
use open3dstream.Numerics.{Numerics}
use open3dstream.Model.Types.{Kind, Transform, Subject}
use open3dstream.Model.Camera.{bind-some}
use open3dstream.Model.SubjectList.{Root, SubjectList}
use open3dstream.Model.SubjectList.Receive.{parse_list}
use open3dstream.LiveLink.{
  Engine, Event, removed, announced, pushed, Source, emit, announce, push, first_package, on_status,
  data_error, note_time, forget, is_nil, contains, without, Bones, bones_of, push_bones,
  push_subject, push_subjects, on_package, remove_inactive, tick, receive_client, shutdown,
  new_source, Input, arrived, ticked, stopped, react, run,
}
use open3dstream.LiveLink.Live.{
  Compares, live, IsOrderly, AllLive, IsKept, IsOrderly-weaken, AllLive-pushed, AllLive-removed,
  AllLive-announced, contains-live,
}

module _ (N : Numerics) (E : Engine N) where
  open N use {F}
  open E use {Name, Time, same, now, is_inactive}

  emit-eq :
      (e : Event N E) (s u : Source N E) → emit N E e s ≡ some u → u ≡ record s { log = e ∷ s.log }
  emit-eq e s u h = by_client s.client h
    where
      by_client :
          (b : Bool)
          → (if b then some (record s { log = e ∷ s.log }) else none) ≡ some u
          → u ≡ record s { log = e ∷ s.log }
      by_client true h = sym (some_eq h)
      by_client false h = absurd cc

  push-IsKept :
      (n : Name) (i : ℕ) (b : Bones N E) (s u : Source N E)
      → i < s.frame
      → IsOrderly N E i s.log
      → live N E n s.log ≡ true
      → AllLive N E s.initialized s.log
      → push N E n i b s ≡ some u
      → IsKept N E u
  push-IsKept n i b s u h x y z e =
      let (v, a, f) = bind-some (emit N E (pushed n i b.poses) s) _ u e in
      subst (IsKept N E) (some_eq f) (
        subst
          (λ (w : Source N E).
            IsKept N E
              (record w { updated = note_time N E n (now w.calls) w.updated; calls = w.calls + 1 }))
          (sym (emit-eq (pushed n i b.poses) s v a))
          (record {
            orderly = (h, y, x);
            all_live = AllLive-pushed N E s.initialized n i b.poses s.log z;
          }))

  announce-IsKept :
      Compares N E
      → (n : Name) (i : ℕ) (b : Bones N E) (s u v : Source N E) → i < s.frame
      → IsOrderly N E i s.log
      → AllLive N E s.initialized s.log
      → announce N E n b s ≡ some u
      → push N E n i b u ≡ some v
      → IsKept N E v
  announce-IsKept c n i b s u v h x z e g =
      let (p, a, f) = bind-some (emit N E (removed n) s) _ u e in
      let (q, k, l) = bind-some (emit N E (announced n b.names b.parents) p) _ u f in
      let w : Source N E = record s {
        initialized = n ∷ s.initialized;
        log = announced n b.names b.parents ∷ removed n ∷ s.log;
      } in
      let same_w : u ≡ w =
        sym (some_eq l)
        ∙ ap (λ (t : Source N E). record t { initialized = n ∷ t.initialized })
            (emit-eq (announced n b.names b.parents) p q k)
        ∙ ap
            (λ (t : Source N E). record t {
              initialized = n ∷ t.initialized;
              log = announced n b.names b.parents ∷ t.log;
            })
            (emit-eq (removed n) s p a) in
      let here : live N E n w.log ≡ true = rw (c.same_refl n) refl in
      push-IsKept n i b w v h x here
        (here, AllLive-announced N E s.initialized n b.names b.parents s.log z)
        (subst (λ t. push N E n i b t ≡ some v) same_w g)

  push_bones-IsKept :
      Compares N E
      → (n : Name) (i : ℕ) (o : Option (Bones N E)) (s u : Source N E) → i < s.frame
      → IsOrderly N E i s.log
      → AllLive N E s.initialized s.log
      → push_bones N E n i o s ≡ some u
      → IsKept N E u
  unfolding push_bones
  push_bones-IsKept c n i none s u h x z e =
      subst (IsKept N E) (some_eq e) (record {
        orderly = IsOrderly-weaken N E i s.frame s.log (omega (arith, h)) x;
        all_live = z;
      })
  push_bones-IsKept c n i (some b) s u h x z e = elim (Bool-cases (contains N E n s.initialized)) [
    | inl y ↦
        push-IsKept n i b s u h x (contains-live N E c n s.initialized s.log y z) z
          (rw (y, push_bones) at e)
    | inr w ↦ elim (Bool-cases (is_nil N E b.names)) [
      | inl y ↦ subst (IsKept N E) (some_eq (rw (w, y, push_bones) at e)) (record {
        orderly = IsOrderly-weaken N E i s.frame s.log (omega (arith, h)) x;
        all_live = z;
      })
      | inr v ↦
          let (t, a, f) = bind-some (announce N E n b s) _ u (rw (w, v, push_bones) at e) in
          announce-IsKept c n i b s t u h x z a f
    ]
  ]

  push_subjects-IsKept :
      Compares N E
      → (xs : List (Subject F)) (s u : Source N E) → IsKept N E s
      → push_subjects N E xs s ≡ some u
      → IsKept N E u
  unfolding push_subjects push_subject
  push_subjects-IsKept c [] s u k e = subst (IsKept N E) (some_eq e) k
  push_subjects-IsKept c (x ∷ xs) s u k e =
      let (v, a, f) = bind-some (push_subject N E x s) _ u e in
      let (o, _, g) = bind-some (bones_of N E x.transforms x.transforms) _ v a in
      push_subjects-IsKept c xs v u
        (push_bones-IsKept c (E.fname x.name) s.frame o
          (record s { frame = s.frame + 1; calls = s.calls + 1 }) v (omega arith) k.orderly
          k.all_live g)
        f

  remove_inactive-IsKept :
      (t : Time) (us : List (Name × Time)) (s u : Source N E)
      → IsKept N E s
      → remove_inactive N E t us s ≡ some u
      → IsKept N E u
  unfolding remove_inactive
  remove_inactive-IsKept t [] s u k e = subst (IsKept N E) (some_eq e) k
  remove_inactive-IsKept t ((n, x) ∷ us) s u k e = elim (Bool-cases (is_inactive t x)) [
    | inl y ↦
        let r : Source N E = record s { updated = forget N E n s.updated } in
        let (v, a, f) = bind-some (emit N E (removed n) r) _ u (rw (y, remove_inactive) at e) in
        remove_inactive-IsKept t us (record v { initialized = without N E n v.initialized }) u
          (subst
            (λ (w : Source N E).
              IsKept N E (record w { initialized = without N E n w.initialized }))
            (sym (emit-eq (removed n) r v a))
            (record {
              orderly = k.orderly;
              all_live = AllLive-removed N E s.initialized n s.log k.all_live;
            }))
          f
    | inr z ↦ remove_inactive-IsKept t us s u k (rw (z, remove_inactive) at e)
  ]

  tick-IsKept :
      (delta : Time) (s u : Source N E) → IsKept N E s → tick N E delta s ≡ some u → IsKept N E u
  unfolding tick
  tick-IsKept delta s u k e =
      let t : Source N E = record s { since = E.add_time s.since delta } in
      elim (Bool-cases (E.is_due t.since)) [
        | inl y ↦
            let (v, a, f) =
              bind-some
                (remove_inactive N E (now t.calls) t.updated (record t { calls = t.calls + 1 })) _ u
                (rw (y, tick) at e) in
            let m =
              remove_inactive-IsKept (now t.calls) t.updated (record t { calls = t.calls + 1 }) v
                (record { orderly = k.orderly; all_live = k.all_live }) a in
            subst (IsKept N E) (some_eq f) (record { orderly = m.orderly; all_live = m.all_live })
        | inr z ↦
            subst (IsKept N E) (some_eq (rw (z, tick) at e))
              (record { orderly = k.orderly; all_live = k.all_live })
      ]

  module _ (decode : List ℕ → Option (Root F)) (crc : List ℕ → ℕ) (fresh : Kind → Transform F)
      (c : Compares N E) where
    on_package-IsKept :
        (bytes : List ℕ) (s u : Source N E)
        → IsKept N E s
        → on_package N E decode crc fresh bytes s ≡ some u
        → IsKept N E u
    unfolding on_package
    on_package-IsKept bytes s u k e = by_valid s.valid e
      where
        parsed :
            (b : Bool) (l : SubjectList N)
            → let t = record (first_package N E s) { subjects = l } in
              (if b then push_subjects N E l.items t else some (on_status N E data_error t))
                ≡ some u
              → IsKept N E u
        parsed true l f =
            push_subjects-IsKept c l.items (record (first_package N E s) { subjects = l }) u
              (record { orderly = k.orderly; all_live = k.all_live }) f
        parsed false l f =
            subst (IsKept N E) (some_eq f) (record { orderly = k.orderly; all_live = k.all_live })

        by_valid :
            (b : Bool)
            → (if not b
                then some s
                else (parse_list N decode crc fresh false (some bytes) s.subjects >>= λ r.
                    let t = record (first_package N E s) { subjects = r.1 } in
                    if r.0
                    then push_subjects N E r.1.items t
                    else some (on_status N E data_error t)))
              ≡ some u
            → IsKept N E u
        by_valid true h =
            let (r, a, f) =
              bind-some (parse_list N decode crc fresh false (some bytes) s.subjects) _ u h in
            parsed r.0 r.1 f
        by_valid false h = subst (IsKept N E) (some_eq h) k

    run-IsKept :
        (is : List (Input N E)) (s u : Source N E)
        → IsKept N E s
        → run N E decode crc fresh is s ≡ some u
        → IsKept N E u
    unfolding run react
    run-IsKept [] s u k e = subst (IsKept N E) (some_eq e) k
    run-IsKept (arrived bytes ∷ is) s u k e =
        let (v, a, f) = bind-some (on_package N E decode crc fresh bytes s) _ u e in
        run-IsKept is v u (on_package-IsKept bytes s v k a) f
    run-IsKept (ticked delta ∷ is) s u k e =
        let (v, a, f) = bind-some (tick N E delta s) _ u e in
        run-IsKept is v u (tick-IsKept delta s v k a) f
    run-IsKept (stopped ∷ is) s u k e =
        run-IsKept is (shutdown N E s) u (record { orderly = k.orderly; all_live = k.all_live }) e

    -- Whatever comes to a source that was given to a client, packages, ticks and the shutdown: as long
    -- as nothing faults, each frame of a subject that the client is handed comes after the subject
    -- was announced and not removed since, and the frames are numbered upwards.
    pub run-IsOrderly :
        (l : SubjectList N) (started : Bool) (is : List (Input N E)) (u : Source N E)
        → run N E decode crc fresh is (receive_client N E started (new_source N E l)) ≡ some u
        → IsOrderly N E u.frame u.log
    run-IsOrderly l started is u e =
        let k =
          run-IsKept is (receive_client N E started (new_source N E l)) u
            (record { orderly = tt; all_live = tt }) e in
        k.orderly
