-- ===== src/Udp/RoundTrip/Sender.antt =====
-- What `UdpFragmenter` of src/o3ds/udp_fragment.cpp puts on the wire.
use open3dstream.Base.{
  ℕ, ◌+◌, ◌-◌, ◌*◌, ◌/◌, ◌%◌, ◌<◌, ◌≡◌, ap, ◌∙◌, List, ◌++◌, arith, length, length-append, ltb,
  false,
}
use open3dstream.Base.Buffers.{slice, length-slice}
use open3dstream.Base.Words.{u32_mod, u64_mod}
use open3dstream.Udp.Wire.{Heading, heading, write_heading, length-write_heading, ok}
use open3dstream.Udp.Wire.{heading-write_heading}
use open3dstream.Udp.Chunks.{Fits, count, chunk, start_inside, chunk_inside, count-le}
use open3dstream.Udp.Fragmenter.{Fragmenter, init, fragment_length, make_fragment}

abbrev pub sender : List ℕ → ℕ → Fragmenter
sender bytes f = record {
  fragment_size = f;
  buffer = bytes;
  buffer_size = length bytes;
  frames = count (length bytes) f;
}

abbrev pub piece : List ℕ → ℕ → ℕ → List ℕ
piece bytes f q = slice (q * f) (chunk (length bytes) f q) bytes

abbrev pub label : List ℕ → ℕ → ℕ → ℕ → Heading
label bytes f id q = record { id = id; seq = q; buf_sz = length bytes; frag_size = f }

abbrev pub datagram : List ℕ → ℕ → ℕ → ℕ → List ℕ
datagram bytes f id q = write_heading (label bytes f id q) ++ piece bytes f q

module _ (bytes : List ℕ) (f : ℕ) (fits : Fits (length bytes) f) where
  pub init-sender : init bytes f ≡ ok (sender bytes f)
  unfolding init
  init-sender = ground (arith, fits, ap (λ (t : ℕ). t / f) (no_wrap))
    where
      no_wrap : (length bytes + f + u64_mod - 1) % u64_mod ≡ length bytes + f - 1
      no_wrap = omega (arith, fits.positive, fits.small)

  last_index :
      0 < count (length bytes) f
      → (count (length bytes) f + u64_mod - 1) % u64_mod ≡ count (length bytes) f - 1
  last_index h = omega (arith, count-le fits, fits.small)

  last_start :
      0 < count (length bytes) f
      → ((count (length bytes) f - 1) * f) % u64_mod ≡ (count (length bytes) f - 1) * f
  last_start h =
      omega (arith, start_inside fits (count (length bytes) f - 1) (omega arith), fits.small)

  wrap_back :
      0 < count (length bytes) f
      → (length bytes + u64_mod - (count (length bytes) f - 1) * f) % u64_mod
        ≡ length bytes - (count (length bytes) f - 1) * f
  wrap_back h =
      omega (arith, start_inside fits (count (length bytes) f - 1) (omega arith), fits.small)

  fragment_length-chunk :
      (q : ℕ)
      → q < count (length bytes) f
      → fragment_length (sender bytes f) q ≡ chunk (length bytes) f q
  unfolding fragment_length
  fragment_length-chunk q h =
      rw (last_index (omega arith), last_start (omega arith), wrap_back (omega arith))

  pub make_fragment-datagram :
      (id q : ℕ)
      → q < count (length bytes) f
      → make_fragment (sender bytes f) id q ≡ ok (datagram bytes f id q)
  unfolding make_fragment
  make_fragment-datagram id q h = rw (fragment_length-chunk q h, offset) (rw inside)
    where
      offset : (q * f) % u64_mod ≡ q * f
      offset = omega (arith, start_inside fits q h, fits.small)

      inside : ltb (length bytes) (q * f + chunk (length bytes) f q) ≡ false
      inside = ground (arith, chunk_inside fits q h)

  pub length-piece :
      (q : ℕ) → q < count (length bytes) f → length (piece bytes f q) ≡ chunk (length bytes) f q
  length-piece q h = length-slice (q * f) _ bytes (chunk_inside fits q h)

  pub length-datagram :
      (id q : ℕ)
      → q < count (length bytes) f
      → length (datagram bytes f id q) ≡ 16 + chunk (length bytes) f q
  length-datagram id q h =
      length-append (write_heading (label bytes f id q)) (piece bytes f q)
      ∙ omega (arith, length-write_heading (label bytes f id q), length-piece q h)

  pub heading-datagram :
      (id q : ℕ)
      → id < u32_mod
      → q < count (length bytes) f
      → heading (datagram bytes f id q) ≡ label bytes f id q
  heading-datagram id q small h =
      heading-write_heading (label bytes f id q) _ small (omega (arith, count-le fits, fits.small))
        (omega (arith, fits.small)) (omega (arith, fits.small))
