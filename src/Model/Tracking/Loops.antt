-- ===== src/Model/Tracking/Loops.antt =====
-- The loops of `Subject::serializeUpdate` and `parseUpdate` (src/o3ds/model.cpp), transform by
-- transform.
use mathlib.Core.Path.{subst}
use open3dstream.Base.{
  get_elem?-length, ℕ, zero, suc, ◌+◌, ◌<◌, List, [], ◌∷◌, map, Option, some, none, get_elem?,
  length, ◌≡◌, ◌≢◌, refl, ap, ◌∙◌, inl, inr, arith, Option-cases, some_eq, get_elem?-set_self,
  get_elem?-set_ne, length-set,
}
use open3dstream.Base.Int.{pos}
use open3dstream.Numerics.{Numerics}
use open3dstream.Model.Types.{Transform, Message}
use open3dstream.Model.Wire.{Changed}
use open3dstream.Model.Update.{
  send_translation, send_rotation, send, at_index, send_all, modify, apply,
}

module _ (N : Numerics) where
  open N use {F}

  abbrev pub emit :
      {A : Type 0} → (Transform F → Option A) → ℕ → List (Transform F) → List (Changed A)
  emit g i [] = []
  emit g i (t ∷ ts) = at_index N i (g t) (emit g (suc i) ts)

  pub translations-emit :
      (threshold : F) (i : ℕ) (e : Message) (ts : List (Transform F))
      → (send_all N threshold i e ts).translations ≡ emit (send_translation N threshold) i ts
  unfolding send_all
  translations-emit threshold i e [] = refl
  translations-emit threshold i e (t ∷ ts) =
      ap (at_index N i (send_translation N threshold t)) (translations-emit threshold (suc i) _ ts)

  pub rotations-emit :
      (threshold : F) (i : ℕ) (e : Message) (ts : List (Transform F))
      → (send_all N threshold i e ts).rotations ≡ emit (send_rotation N threshold) i ts
  unfolding send_all
  rotations-emit threshold i e [] = refl
  rotations-emit threshold i e (t ∷ ts) =
      ap (at_index N i (send_rotation N threshold t)) (rotations-emit threshold (suc i) _ ts)

  pub transforms-send :
      (threshold : F) (i : ℕ) (e : Message) (ts : List (Transform F))
      → (send_all N threshold i e ts).transforms ≡ map (send N threshold) ts
  unfolding send_all
  transforms-send threshold i e [] = refl
  transforms-send threshold i e (t ∷ ts) =
      ap (λ us. send N threshold t ∷ us) (transforms-send threshold (suc i) _ ts)

  module _ {A : Type 0} (f : A → Transform F → Transform F) where
    abbrev pub put : Option A → Transform F → Transform F
    put none r = r
    put (some a) r = f a r

    abbrev put_at : ℕ → Option A → List (Transform F) → List (Transform F)
    put_at i none rs = rs
    put_at i (some a) rs = modify N (f a) (pos i) rs

    apply-at_index :
        (i : ℕ) (o : Option A) (us : List (Changed A)) (rs : List (Transform F))
        → apply N f (at_index N i o us) rs ≡ apply N f us (put_at i o rs)
    unfolding apply
    apply-at_index i none us rs = refl
    apply-at_index i (some a) us rs = refl

    get_elem?-put_at :
        (i : ℕ) (o : Option A) (rs : List (Transform F)) (r : Transform F)
        → get_elem? rs i ≡ some r
        → get_elem? (put_at i o rs) i ≡ some (put o r)
    unfolding modify
    get_elem?-put_at i none rs r g = g
    get_elem?-put_at i (some a) rs r g =
        rw (g, modify) (get_elem?-set_self rs i (f a r) (get_elem?-length rs i r g))

    get_elem?-put_at_ne :
        (i j : ℕ) (o : Option A) (rs : List (Transform F))
        → i ≢ j
        → get_elem? (put_at i o rs) j ≡ get_elem? rs j
    unfolding modify
    get_elem?-put_at_ne i j none rs n = refl
    get_elem?-put_at_ne i j (some a) rs n = elim (Option-cases (get_elem? rs i)) [
      | inl g ↦ rw (g, modify) refl
      | inr (r, g) ↦ rw (g, modify) (get_elem?-set_ne rs (f a r) n)
    ]

    length-put_at :
        (i : ℕ) (o : Option A) (rs : List (Transform F)) → length (put_at i o rs) ≡ length rs
    unfolding modify
    length-put_at i none rs = refl
    length-put_at i (some a) rs = elim (Option-cases (get_elem? rs i)) [
      | inl g ↦ rw (g, modify) refl
      | inr (r, g) ↦ rw (g, modify) (length-set rs i (f a r))
    ]

    module _ (g : Transform F → Option A) where
      pub length-apply :
          (i : ℕ) (ts rs : List (Transform F)) → length (apply N f (emit g i ts) rs) ≡ length rs
      unfolding apply
      length-apply i [] rs = refl
      length-apply i (t ∷ ts) rs =
          ap (λ us. length us) (apply-at_index i (g t) (emit g (suc i) ts) rs)
          ∙ length-apply (suc i) ts (put_at i (g t) rs)
          ∙ length-put_at i (g t) rs

      apply_below :
          (i j : ℕ) (ts rs : List (Transform F))
          → j < i
          → get_elem? (apply N f (emit g i ts) rs) j ≡ get_elem? rs j
      unfolding apply
      apply_below i j [] rs h = refl
      apply_below i j (t ∷ ts) rs h =
          ap (λ us. get_elem? us j) (apply-at_index i (g t) (emit g (suc i) ts) rs)
          ∙ apply_below (suc i) j ts (put_at i (g t) rs) (omega arith)
          ∙ get_elem?-put_at_ne i j (g t) rs (omega arith)

      apply_head :
          (i : ℕ) (t : Transform F) (ts rs : List (Transform F)) (r : Transform F)
          → get_elem? rs i ≡ some r
          → get_elem? (apply N f (emit g i (t ∷ ts)) rs) i ≡ some (put (g t) r)
      apply_head i t ts rs r y =
          ap (λ us. get_elem? us i) (apply-at_index i (g t) (emit g (suc i) ts) rs)
          ∙ apply_below (suc i) i ts (put_at i (g t) rs) (omega arith)
          ∙ get_elem?-put_at i (g t) rs r y

      -- What is received for the transforms from `i` on reaches exactly those transforms.
      pub get_elem?-apply :
          (i j k : ℕ) (ts rs : List (Transform F)) (t r : Transform F)
          → j ≡ i + k
          → get_elem? ts k ≡ some t
          → get_elem? rs j ≡ some r
          → get_elem? (apply N f (emit g i ts) rs) j ≡ some (put (g t) r)
      get_elem?-apply i j k [] rs t r e x y = absurd cc
      get_elem?-apply i j zero (a ∷ ts) rs t r e x y =
          subst
            (λ (n : ℕ).
              get_elem? rs n ≡ some r
              → get_elem? (apply N f (emit g i (a ∷ ts)) rs) n ≡ some (put (g t) r))
            (omega arith)
            (λ z.
              subst
                (λ (u : Transform F).
                  get_elem? (apply N f (emit g i (a ∷ ts)) rs) i ≡ some (put (g u) r))
                (some_eq x) (apply_head i a ts rs r z))
            y
      get_elem?-apply i j (suc k) (a ∷ ts) rs t r e x y =
          ap (λ us. get_elem? us j) (apply-at_index i (g a) (emit g (suc i) ts) rs)
          ∙ get_elem?-apply (suc i) j k ts (put_at i (g a) rs) t r (omega arith) x
              (get_elem?-put_at_ne i j (g a) rs (omega arith) ∙ y)
