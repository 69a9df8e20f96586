-- ===== src/Udp/Mapper.antt =====
-- `UdpMapper` of src/o3ds/udp_fragment.cpp. The `std::map` is an association list in the order of
-- its keys. To compare keys with `i.first` when that entry is erased is a fault.
pub mod Laws
pub mod Step
pub mod Interleaved
pub mod Flaws
use open3dstream.Base.{
  ℕ, List, [], ◌∷◌, ◌++◌, Option, some, none, Bool, true, false, ◌||◌, length, take, ltb, leb, ◌==◌,
  if◌then◌else◌,
}
use open3dstream.Udp.Wire.{
  header_size, max_datagram, heading, Result, ok, fault, use_after_free, ◌>>=◌,
}
use open3dstream.Udp.Combiner
use open3dstream.Udp.Combiner.{Combiner, is_complete}

abbrev pub Items : Type 0
Items = List (ℕ × Combiner)

-- `items.find(id)`.
unfoldable pub find : ℕ → Items → Option Combiner
find k [] = none
find k ((j, c) ∷ m) = if j == k then some c else find k m

-- A value for a key, in the place that the order gives it.
pub insert : ℕ → Combiner → Items → Items
insert k c [] = (k, c) ∷ []
insert k c ((j, d) ∷ m) =
    if k == j then (k, c) ∷ m else if ltb k j then (k, c) ∷ (j, d) ∷ m else (j, d) ∷ insert k c m

-- The combiner of an id, made where there is none.
unfoldable pub get_combiner : Items → ℕ → Combiner × Items
get_combiner items id = elim (find id items) [
  | some c ↦ (c, items)
  | none ↦ (Combiner.init, insert id Combiner.init items)
]

-- The combiner's answer is not looked at; the combiner is changed in place.
unfoldable pub add_fragment : Items → List ℕ → Result (Bool × Items)
add_fragment items bytes =
    let id = (heading bytes).id in
    let (c, items') = get_combiner items id in
    if ltb (length bytes) header_size || ltb max_datagram (length bytes)
    then ok (false, items)
    else (Combiner.add_fragment c bytes >>= λ r. ok (true, insert id r.1 items'))

pub first_complete : Items → Option (ℕ × Combiner)
first_complete [] = none
first_complete ((k, c) ∷ m) = if is_complete c then some (k, c) else first_complete m

-- The loop that erases the entries up to the key of `i`, and whether the entry of `i` is gone.
pub erase_upto : Bool → ℕ → Items → Result Items
erase_upto gone k [] = ok []
erase_upto true k ((j, c) ∷ m) = fault use_after_free
erase_upto false k ((j, c) ∷ m) =
    let rest = erase_upto (j == k) k m in if leb j k then rest else (rest >>= λ r. ok ((j, c) ∷ r))

-- What is appended to `out` are cells of memory: one that was not written has no known value.
unfoldable pub get_frame : Items → List (Option ℕ) → Result (Bool × List (Option ℕ) × Items)
unfolding first_complete erase_upto
get_frame items out = elim (first_complete items) [
  | none ↦ ok (false, out, items)
  | some (k, c) ↦
      (erase_upto false k items >>= λ m. ok (true, out ++ take c.buffer_size c.buffer, m))
]
