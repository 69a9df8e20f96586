-- ===== src/Model/Assertions.antt =====
-- The assertions of `TransformTranslation` (src/o3ds/transform_component.h) along `serialize`, `parse`,
-- `serializeUpdate` and `parseUpdate` of src/o3ds/model.cpp: whether each of them holds. The operations
-- themselves are modelled without them.
use open3dstream.Base.{
  ℕ, suc, List, [], ◌∷◌, length, ltb, Option, none, some, Bool, true, false, ◌&&◌, if◌then◌else◌,
  Bool-cases, inl, inr, ◌≡◌, refl,
}
use open3dstream.Base.Int.{ℤ, pos, negsuc}
use open3dstream.Numerics.{Triple, Numerics}
use open3dstream.Model.Types.{Vector, Transform, Subject, Message, non_finite}
use open3dstream.Model.Transform.{finite_triple, all_finite}
use open3dstream.Model.Wire.{WireTransform, WireSubject, WireUpdate, Changed, narrow_vector}
use open3dstream.Model.Subject.{serialize_transform, serialize_nodes, serialize}
use open3dstream.Model.Update.{translation_moved, send_translation, send_all, serialize_update}

module _ (N : Numerics) where
  open N use {F, equal, single, is_finite}

  -- In `sent`: the value is finite.
  unfoldable pub sent_assert : Vector F → Bool
  sent_assert v = finite_triple N v.value

  -- In the constructor from three numbers: none of them is a NaN.
  unfoldable pub made_assert : Triple F → Bool
  made_assert v = equal v.x v.x && (equal v.y v.y && equal v.z v.z)

  unfoldable pub nodes_sent_assert : List (Transform F) → Bool
  unfolding sent_assert
  nodes_sent_assert [] = true
  nodes_sent_assert (t ∷ ts) = sent_assert t.translation && nodes_sent_assert ts

  -- In `Subject::serialize`.
  unfoldable pub serialize_assert : Subject F → Bool
  unfolding nodes_sent_assert
  serialize_assert s = nodes_sent_assert s.transforms

  abbrev given_assert : Option (Triple F) → Bool
  given_assert none = true
  given_assert (some v) = made_assert v

  unfoldable pub nodes_made_assert : List (WireTransform F) → Bool
  unfolding made_assert
  nodes_made_assert [] = true
  nodes_made_assert (w ∷ ws) = given_assert w.translation && nodes_made_assert ws

  -- In `Subject::parse`.
  unfoldable pub parse_assert : WireSubject F → Bool
  unfolding nodes_made_assert
  parse_assert w = elim (w.nodes) [ none ↦ true | some ws ↦ nodes_made_assert ws ]

  -- In `Subject::serializeUpdate`, where a translation is pushed.
  unfoldable pub updates_sent_assert : F → List (Transform F) → Bool
  unfolding send_translation sent_assert
  updates_sent_assert threshold [] = true
  updates_sent_assert threshold (t ∷ ts) =
      let rest = updates_sent_assert threshold ts in
      elim (send_translation N threshold t) [
        | none ↦ rest
        | some v ↦ sent_assert t.translation && rest
      ]

  abbrev within : ℤ → ℕ → Bool
  within (pos i) n = ltb i n
  within (negsuc i) n = false

  -- In `Subject::parseUpdate`, into `n` transforms.
  unfoldable pub updates_made_assert : ℕ → List (Changed (Triple F)) → Bool
  unfolding made_assert
  updates_made_assert n [] = true
  updates_made_assert n (u ∷ us) =
      (if within u.i n then made_assert u.value else true) && updates_made_assert n us

  unfoldable pub parse_update_assert : WireUpdate F → Subject F → Bool
  unfolding updates_made_assert
  parse_update_assert w s = elim (w.translation) [
    | none ↦ true
    | some us ↦ updates_made_assert (length s.transforms) us
  ]

  -- A fact of IEEE arithmetic: the `float` next to a finite number is not a NaN.
  abbrev pub NarrowsToNumber : Type 0
  NarrowsToNumber = (a : F) → is_finite a ≡ true → equal (single a) (single a) ≡ true

  both : (a b : Bool) → (a && b) ≡ true → (a ≡ true) × (b ≡ true)
  both true b e = (refl, e)
  both false b e = absurd cc

  and_true : {a b : Bool} → a ≡ true → b ≡ true → (a && b) ≡ true
  and_true p q = rw (p, q) refl

  made-narrow :
      (v : Vector F)
      → NarrowsToNumber
      → sent_assert v ≡ true
      → made_assert (narrow_vector N v) ≡ true
  unfolding sent_assert made_assert narrow_vector
  made-narrow v law e =
      let (a, f) = both (is_finite v.value.x) _ e in
      let (b, c) = both (is_finite v.value.y) _ f in
      and_true (law v.value.x a) (and_true (law v.value.y b) (law v.value.z c))

  nodes_made-nodes :
      (ts : List (Transform F))
      → NarrowsToNumber
      → nodes_sent_assert ts ≡ true
      → nodes_made_assert (serialize_nodes N ts).0 ≡ true
  unfolding nodes_sent_assert nodes_made_assert serialize_nodes serialize_transform
  nodes_made-nodes [] law e = refl
  nodes_made-nodes (t ∷ ts) law e =
      let (a, b) = both (sent_assert t.translation) _ e in
      and_true (made-narrow t.translation law a) (nodes_made-nodes ts law b)

  -- A receiver of a subject whose translations are finite makes no NaN.
  pub parse_assert-serialize :
      (s : Subject F)
      → NarrowsToNumber
      → serialize_assert s ≡ true
      → parse_assert (serialize N s).0 ≡ true
  unfolding serialize_assert parse_assert serialize
  parse_assert-serialize s law e = nodes_made-nodes s.transforms law e

  all_finite-translation :
      (t : Transform F) → all_finite N t ≡ true → sent_assert t.translation ≡ true
  unfolding all_finite sent_assert
  all_finite-translation t e =
      let (_, f) = both _ _ e in
      let (_, g) = both _ _ f in (both (finite_triple N t.translation.value) _ g).0

  -- What is pushed is finite.
  pub updates_sent_assert-true :
      (threshold : F) (ts : List (Transform F)) → updates_sent_assert threshold ts ≡ true
  unfolding updates_sent_assert send_translation
  updates_sent_assert-true threshold [] = refl
  updates_sent_assert-true threshold (t ∷ ts) =
      let rest = updates_sent_assert-true threshold ts in
      elim (Bool-cases (all_finite N t)) [
        | inr z ↦ rw (z, updates_sent_assert) rest
        | inl y ↦ elim (Bool-cases (translation_moved N threshold t)) [
          | inr z ↦ rw (y, z, updates_sent_assert) rest
          | inl m ↦ rw (y, m, updates_sent_assert) (and_true (all_finite-translation t y) rest)
        ]
      ]

  if_true : (b : Bool) {c : Bool} → c ≡ true → (if b then c else true) ≡ true
  if_true true e = e
  if_true false e = refl

  updates_made-all :
      (threshold : F) (n i : ℕ) (e : Message) (ts : List (Transform F))
      → NarrowsToNumber
      → updates_made_assert n (send_all N threshold i e ts).translations ≡ true
  unfolding updates_made_assert send_all send_translation
  updates_made-all threshold n i e [] law = refl
  updates_made-all threshold n i e (t ∷ ts) law =
      let rest =
        updates_made-all threshold n (suc i) (if all_finite N t then e else non_finite t.name) ts
          law in
      elim (Bool-cases (all_finite N t)) [
        | inr z ↦ rw (z) (rw (z) at rest)
        | inl y ↦ elim (Bool-cases (translation_moved N threshold t)) [
          | inr z ↦ rw (y, z) (rw (y) at rest)
          | inl m ↦
              rw (y, m)
                (and_true
                  (if_true (within (pos i) n)
                    (made-narrow t.translation law (all_finite-translation t y)))
                  (rw (y) at rest))
        ]
      ]

  -- A receiver of an update makes no NaN.
  pub parse_update_assert-serialize_update :
      (threshold : F) (count : ℕ) (s r : Subject F)
      → NarrowsToNumber
      → parse_update_assert (serialize_update N threshold count s).0 r ≡ true
  unfolding parse_update_assert serialize_update
  parse_update_assert-serialize_update threshold count s r law =
      updates_made-all threshold (length r.transforms) 0 s.error s.transforms law
