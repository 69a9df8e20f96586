-- ===== src/Udp/Tests.antt =====
-- Runs of the model of src/o3ds/udp_fragment.cpp, and its theorems at concrete packets.
use open3dstream.Base.{
  ℕ, ◌^◌, ◌<◌, ◌≡◌, refl, ◌↔◌, List, [], ◌∷◌, arith, true, false, some, ◌==◌, if◌then◌else◌,
}
use open3dstream.Base.Buffers.{read_all}
use open3dstream.Base.Words.{word32_at}
use open3dstream.Udp.Wire.{ok, fault, buffer_overrun, use_after_free, heading}
use open3dstream.Udp.Chunks.{count}
use open3dstream.Udp.Combiner
use open3dstream.Udp.Combiner.{is_complete}
use open3dstream.Udp.RoundTrip.Transfer.{transfer, transfer_roundtrip, Covers}
use open3dstream.Udp.Mapper
use open3dstream.Udp.Mapper.{Items, get_frame, find}
use open3dstream.Udp.Mapper.Laws.{get_frame-Delivers, Delivers}
use open3dstream.Udp.Mapper.Interleaved.{feed, interleaved_roundtrip, Received}
use open3dstream.Udp.Mapper.Laws.{IsSorted}
use open3dstream.Udp.Mapper.Flaws.{last_fragment_overrun, refused_fragment_delivers}

abbrev sample : List ℕ
sample = 11 ∷ 12 ∷ 13 ∷ 14 ∷ 15 ∷ []

abbrev order : List ℕ
order = 2 ∷ 0 ∷ 2 ∷ 1 ∷ []

transfer_roundtrip_example :
    (c : Combiner.Combiner) × (transfer sample 2 7 order ≡ ok c)
    × ((is_complete c ≡ true) ↔ Covers (count 5 2) order)
    × (Covers (count 5 2) order → read_all c.buffer ≡ some sample)
transfer_roundtrip_example =
    transfer_roundtrip sample 2 7 2 (0 ∷ 2 ∷ 1 ∷ []) (omega arith) (omega arith) (omega arith)

abbrev packets : ℕ → List ℕ
packets k = if k == 3 then sample else 21 ∷ 22 ∷ 23 ∷ []

abbrev mixed : List (ℕ × ℕ)
mixed = (4, 1) ∷ (3, 2) ∷ (3, 0) ∷ (4, 0) ∷ (3, 1) ∷ []

interleaved_roundtrip_example :
    (m : Items) × (feed packets 2 [] mixed ≡ ok m)
    × IsSorted m
    × ((k : ℕ) → k < 2 ^ 32 → Received packets 2 mixed m k)
interleaved_roundtrip_example = interleaved_roundtrip packets 2 mixed (omega arith)

abbrev two_entries : Items
two_entries =
    (1, record { frame_size = 0; frames = 0; found = false ∷ []; buffer = []; buffer_size = 0 })
    ∷ (
      3,
      record {
        frame_size = 0;
        frames = 0;
        found = true ∷ [];
        buffer = some 9 ∷ [];
        buffer_size = 1;
      },
    )
    ∷ []

get_frame-Delivers_example : Delivers two_entries [] (get_frame two_entries [])
get_frame-Delivers_example = get_frame-Delivers two_entries [] (omega arith)

-- The later entry is complete: it is delivered, and the earlier one is dropped with it.
get_frame_run : get_frame two_entries [] ≡ ok (true, some 9 ∷ [], [])
unfolding get_frame is_complete
get_frame_run = refl

-- The entry that is delivered has one after it.
get_frame_freed : get_frame ((0, Combiner.init) ∷ two_entries) [] ≡ fault use_after_free
unfolding get_frame is_complete Combiner.init
get_frame_freed = refl

-- Number 2 of 3, for a packet of 5 bytes in pieces of 2, with a payload of 4 bytes.
abbrev long_tail : List ℕ
long_tail = 7 ∷ 0 ∷ 0 ∷ 0 ∷ 2 ∷ 0 ∷ 0 ∷ 0 ∷ 5 ∷ 0 ∷ 0 ∷ 0 ∷ 2 ∷ 0 ∷ 0 ∷ 0 ∷ 1 ∷ 2 ∷ 3 ∷ 4 ∷ []

last_fragment_overrun_example : Combiner.add_fragment Combiner.init long_tail ≡ fault buffer_overrun
unfolding heading word32_at
last_fragment_overrun_example =
    last_fragment_overrun long_tail (omega arith) (omega arith) (omega arith) (omega arith)
      (omega arith)

-- Number 3 of 3.
abbrev no_such : List ℕ
no_such = 7 ∷ 0 ∷ 0 ∷ 0 ∷ 3 ∷ 0 ∷ 0 ∷ 0 ∷ 5 ∷ 0 ∷ 0 ∷ 0 ∷ 2 ∷ 0 ∷ 0 ∷ 0 ∷ []

-- A packet of which one piece is still to come.
abbrev unfinished : Items
unfinished =
    (1, record { frame_size = 0; frames = 0; found = false ∷ []; buffer = []; buffer_size = 0 })
    ∷ []

is_complete-unfinished :
    (k : ℕ) (c : Combiner.Combiner) → find k unfinished ≡ some c → is_complete c ≡ false
unfolding find is_complete Combiner.all_true
is_complete-unfinished k c e = ground (arith, e)

refused_fragment_delivers_example :
    (m : Items) × (Mapper.add_fragment unfinished no_such ≡ ok (true, m))
    × (get_frame m [] ≡ ok (true, [], []))
unfolding heading word32_at find is_complete
refused_fragment_delivers_example =
    refused_fragment_delivers unfinished no_such [] (omega arith) (omega arith) refl
      (λ j h. ground (arith, h)) (omega arith) is_complete-unfinished
