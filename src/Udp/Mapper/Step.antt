-- ===== src/Udp/Mapper/Step.antt =====
-- One fragment through `UdpMapper` of src/o3ds/udp_fragment.cpp.
use open3dstream.Base.{
  ℕ, ◌≡◌, inl, inr, List, arith, length, ◌==◌, true, false, ◌||◌, some, none, ltb, if◌then◌else◌,
  Option-cases,
}
use open3dstream.Udp.Wire.{ok, heading, header_size, max_datagram}
use open3dstream.Udp.Combiner
use open3dstream.Udp.Combiner.{Combiner, is_complete, allocate}
use open3dstream.Udp.Mapper.{Items, find, insert, get_combiner, add_fragment}
use open3dstream.Udp.Mapper.Laws.{find-insert, IsSorted, insert-From}

-- The combiner that an id has, or the new one that it gets.
abbrev pub current : Items → ℕ → Combiner
current items id = elim (find id items) [ none ↦ Combiner.init | some c ↦ c ]

-- What `add_fragment` does where the combiner takes the fragment.
pub add_fragment_at :
    (items : Items) (id : ℕ) (bytes : List ℕ) (c : Combiner)
    → (heading bytes).id ≡ id
    → (ltb (length bytes) header_size || ltb max_datagram (length bytes)) ≡ false
    → Combiner.add_fragment (current items id) bytes ≡ ok (true, c)
    → IsSorted items
    → (m : Items) × (add_fragment items bytes ≡ ok (true, m))
      × IsSorted m
      × ((j : ℕ) → find j m ≡ (if id == j then some c else find j items))
unfolding add_fragment get_combiner
add_fragment_at items id bytes c e g r sorted = elim (Option-cases (find id items)) [
  | inl n ↦ (
    insert id c (insert id Combiner.init items),
    rw (e, n, get_combiner, g) (rw (rw (n, current) at r, e)),
    insert-From 0 id c _ (omega arith) (insert-From 0 id Combiner.init items (omega arith) sorted),
    (λ j. ground (
      arith,
      find-insert id j c (insert id Combiner.init items),
      find-insert id j Combiner.init items,
    )),
  )
  | inr (d, s) ↦ (
    insert id c items,
    rw (e, s, get_combiner, g) (rw (rw (s, current) at r)),
    insert-From 0 id c items (omega arith) sorted,
    (λ j. find-insert id j c items),
  )
]
