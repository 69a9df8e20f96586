-- ===== src/Udp/Fragmenter.antt =====
-- `UdpFragmenter` of src/o3ds/udp_fragment.cpp. The allocation of the copy is taken to succeed.
use open3dstream.Base.{ℕ, ◌+◌, ◌-◌, ◌*◌, ◌/◌, ◌%◌, List, ◌++◌, length, ltb, ◌==◌, if◌then◌else◌}
use open3dstream.Base.Buffers.{slice}
use open3dstream.Base.Words.{u64_mod}
use open3dstream.Udp.Wire.{
  Heading, write_heading, Result, ok, fault, divide_by_zero, buffer_overread,
}

pub record Fragmenter : Type 0 where
  pub fragment_size : ℕ
  pub buffer : List ℕ
  pub buffer_size : ℕ
  pub frames : ℕ

-- The constructor: `(sz + inFragSize - 1) / inFragSize` in `size_t`.
unfoldable pub init : List ℕ → ℕ → Result Fragmenter
init bytes frag =
    if frag == 0
    then fault divide_by_zero
    else ok (record {
      fragment_size = frag;
      buffer = bytes;
      buffer_size = length bytes;
      frames = ((length bytes + frag + u64_mod - 1) % u64_mod) / frag;
    })

-- How many bytes of the buffer the fragment `seq` takes.
unfoldable pub fragment_length : Fragmenter → ℕ → ℕ
fragment_length f seq =
    let last = (f.frames + u64_mod - 1) % u64_mod in
    if seq == last
    then (f.buffer_size + u64_mod - (last * f.fragment_size) % u64_mod) % u64_mod
    else f.fragment_size

unfoldable pub make_fragment : Fragmenter → ℕ → ℕ → Result (List ℕ)
unfolding fragment_length
make_fragment f id seq =
    let offset = (seq * f.fragment_size) % u64_mod in
    let n = fragment_length f seq in
    let h : Heading = record {
      id = id;
      seq = seq;
      buf_sz = f.buffer_size;
      frag_size = f.fragment_size;
    } in
    if ltb (length f.buffer) (offset + n)
    then fault buffer_overread
    else ok (write_heading h ++ slice offset n f.buffer)
