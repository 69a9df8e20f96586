-- ===== src/Udp/Combiner.antt =====
-- `UdpCombiner` of src/o3ds/udp_fragment.cpp. Allocations are taken to succeed; what is undefined
-- in C++ (a division by zero, a write outside of `mFound` or of `mBuffer`) is a fault.
use open3dstream.Base.{
  ℕ, ◌+◌, ◌-◌, ◌*◌, ◌/◌, ◌%◌, ◌^◌, List, [], ◌∷◌, Option, Bool, true, false, not, ◌&&◌, ◌||◌,
  length, set, replicate, drop, ltb, leb, ◌==◌, if◌then◌else◌,
}
use open3dstream.Base.Buffers.{write_at, malloc}
use open3dstream.Base.Words.{u32_mod}
use open3dstream.Udp.Wire.{
  header_size, max_datagram, Heading, heading, Result, ok, fault, divide_by_zero, length_error,
  found_overrun, buffer_overrun,
}

pub record Combiner : Type 0 where
  pub frame_size : ℕ
  pub buffer : List (Option ℕ)
  pub buffer_size : ℕ
  pub frames : ℕ
  pub found : List Bool

-- The constructor.
unfoldable pub init : Combiner
init = record { frame_size = 0; buffer = []; buffer_size = 0; frames = 0; found = [] }

-- `(bufSz + fragSize - 1) / fragSize` in `uint32_t`.
abbrev pub frames_of : Heading → ℕ
frames_of h = ((h.buf_sz + h.frag_size + u32_mod - 1) % u32_mod) / h.frag_size

-- `seq * (fragSize - 1)` in `uint32_t`.
abbrev pub room_test : Heading → ℕ
room_test h = (h.seq * ((h.frag_size + u32_mod - 1) % u32_mod)) % u32_mod

-- What the first fragment does to an empty combiner.
abbrev pub allocate : Combiner → Heading → Combiner
allocate c h = record c {
  found = replicate (frames_of h) false;
  buffer = malloc h.buf_sz;
  buffer_size = h.buf_sz;
}

-- From `mFound[seq] = true` on.
unfoldable pub receive : Combiner → Heading → List ℕ → Result (Bool × Combiner)
receive c h bytes =
    let marked = record c { found = set c.found h.seq true } in
    let offset = (h.seq * h.frag_size) % u32_mod in
    if leb (length c.found) h.seq
    then fault found_overrun
    else if not (h.seq == (frames_of h - 1))
        && not (length bytes == ((h.frag_size + header_size) % u32_mod))
    then ok (false, marked)
    else if ltb (length c.buffer) (offset + (length bytes - header_size))
    then fault buffer_overrun
    else ok (true, record marked { buffer = write_at offset (drop header_size bytes) c.buffer })

unfoldable pub add_fragment : Combiner → List ℕ → Result (Bool × Combiner)
add_fragment c bytes =
    let h = heading bytes in
    if ltb (length bytes) header_size || ltb max_datagram (length bytes)
    then ok (false, c)
    else if h.frag_size == 0
    then fault divide_by_zero
    else if leb (frames_of h) h.seq
    then ok (false, c)
    else if ltb h.buf_sz (room_test h)
    then ok (false, c)
    else if c.buffer_size == 0
    then (if leb (2 ^ 31) (frames_of h) then fault length_error else receive (allocate c h) h bytes)
    else if c.buffer_size == h.buf_sz
    then receive c h bytes
    else ok (false, c)

unfoldable pub all_true : List Bool → Bool
all_true [] = true
all_true (b ∷ bs) = b && all_true bs

unfoldable pub is_complete : Combiner → Bool
unfolding all_true
is_complete c = all_true c.found
