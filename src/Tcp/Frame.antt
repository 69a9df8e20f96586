-- ===== src/Tcp/Frame.antt =====
-- What one packet is on a TCP connection: the mark, the length, and the packet, as `WriteTcp` of
-- plugins/mobu/device.cpp sends them.
use open3dstream.Base.{ℕ, ◌+◌, ◌≤◌, List, [], ◌∷◌, ◌++◌, length, length-append, ◌≡◌, arith}
use open3dstream.Base.Words.{to_bytes, length-to_bytes}

-- "\x00\xff\x03\xfeO3DS-START".
abbrev pub start_mark : List ℕ
start_mark = 0 ∷ 255 ∷ 3 ∷ 254 ∷ 79 ∷ 51 ∷ 68 ∷ 83 ∷ 45 ∷ 83 ∷ 84 ∷ 65 ∷ 82 ∷ 84 ∷ []

abbrev pub frame : List ℕ → List ℕ
frame p = start_mark ++ (to_bytes 4 (length p) ++ p)

abbrev pub stream : List (List ℕ) → List ℕ
stream [] = []
stream (p ∷ ps) = frame p ++ stream ps

-- The packets that the receiver takes: no longer than its limit.
abbrev pub AllShort : List (List ℕ) → Type 0
AllShort [] = Unit {0}
AllShort (p ∷ ps) = (length p ≤ 51200) × AllShort ps

pub length-frame : (p : List ℕ) → length (frame p) ≡ length p + 18
length-frame p =
    omega (arith, length-append (to_bytes 4 (length p)) p, length-to_bytes 4 (length p))
