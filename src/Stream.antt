-- ===== src/Stream.antt =====
-- `BinaryStream` of src/o3ds/binary_stream.h and binary_stream.cpp: bytes, and a place in them. A
-- number is its bytes in memory, low byte first; a `float` or a `double` is the word of its bits. The
-- messages of the exceptions are left out. Lengths are far below 2 ^ 64, where `size_t` wraps around.
pub mod Items
pub mod RoundTrip
pub mod Bounds
pub mod Doubles
mod Tests
use open3dstream.Base.{
  Option, some, none, ℕ, zero, suc, ◌+◌, ◌-◌, ◌%◌, ◌/◌, ◌^◌, ◌≤◌, List, [], ◌∷◌, ◌++◌, Bool, true,
  false, if◌then◌else◌, length, get_or, take, drop, replicate, min, ltb, leb,
}
use open3dstream.Base.Buffers.{slice}
use open3dstream.Base.Words.{u16_mod, to_bytes, of_bytes}

pub record Stream : Type 0 where
  pub bytes : List ℕ
  pub ptr : ℕ
  pub swaporder : Bool

abbrev pub empty : Stream
empty = record { bytes = []; ptr = 0; swaporder = false }

-- The constructor from bytes in memory.
abbrev pub of_data : List ℕ → Stream
of_data data_of = record { bytes = data_of; ptr = 0; swaporder = false }

-- What a `get` leaves: the value and the stream, after a `StreamException` too, or the exception of
-- `std::vector::at`.
pub data Got (A : Type 0) : Type 0 where
  value : A → Stream → Got A
  thrown : A → Stream → Got A
  out_of_range : Got A

unfoldable pub done : Stream → Bool
done s = leb (length s.bytes) s.ptr

abbrev pub clear : Stream → Stream
clear s = record s { bytes = []; ptr = 0 }

-- `get(void*, size_t)` and `push(void*, size_t)`.
unfoldable pub get_raw : ℕ → Stream → Got (List ℕ)
get_raw n s =
    if ltb (length s.bytes) (s.ptr + n)
    then thrown (replicate n 0) (record s { ptr = length s.bytes })
    else if leb (length s.bytes) s.ptr
    then out_of_range
    else value (slice s.ptr n s.bytes) (record s { ptr = s.ptr + n })

-- `peek`; `none` is the exception of `at`.
unfoldable pub peek : ℕ → Stream → Option (List ℕ)
peek n s =
    if leb (length s.bytes) s.ptr
    then none
    else some (slice s.ptr (min n (length s.bytes - s.ptr)) s.bytes)

abbrev pub push_raw : List ℕ → Stream → Stream
push_raw bs s = record s { bytes = s.bytes ++ bs }

-- The bytes the other way round.
unfoldable pub reversed : List ℕ → List ℕ
reversed [] = []
reversed (b ∷ bs) = reversed bs ++ (b ∷ [])

-- A word of `n` bytes: `get` and `push` for the unsigned numbers and for `float`.
unfoldable pub swap_word : ℕ → ℕ → ℕ
unfolding reversed
swap_word n x = of_bytes (reversed (to_bytes n x))

abbrev pub word_of : ℕ → Bool → Got (List ℕ) → Got ℕ
word_of n b out_of_range = out_of_range
word_of n b (thrown bs s) = thrown (of_bytes bs) s
word_of n b (value bs s) = value (if b then swap_word n (of_bytes bs) else of_bytes bs) s

unfoldable pub get_word : ℕ → Stream → Got ℕ
unfolding get_raw
get_word n s = word_of n s.swaporder (get_raw n s)

unfoldable pub push_word : ℕ → ℕ → Stream → Stream
unfolding to_bytes
push_word n x s = push_raw (to_bytes n x) s

-- `get(double&)` reads as many bytes as a `float` has, over the low half of `old`.
abbrev pub low_half : ℕ → List ℕ → ℕ
low_half old bs = of_bytes (bs ++ drop 4 (to_bytes 8 old))

abbrev pub double_of : ℕ → Bool → Got (List ℕ) → Got ℕ
double_of old b out_of_range = out_of_range
double_of old b (thrown bs s) = thrown (low_half old bs) s
double_of old b (value bs s) =
    value (if b then swap_word 8 (low_half old bs) else low_half old bs) s

unfoldable pub get_double : ℕ → Stream → Got ℕ
unfolding get_raw to_bytes of_bytes swap_word
get_double old s = double_of old s.swaporder (get_raw 4 s)

-- `uint8_t`.
unfoldable pub get_byte : Stream → Got ℕ
get_byte s =
    if leb (length s.bytes) s.ptr
    then thrown 255 s
    else value (get_or s.bytes s.ptr 0) (record s { ptr = s.ptr + 1 })

abbrev pub push_byte : ℕ → Stream → Stream
push_byte b s = push_raw ((b % 256) ∷ []) s

-- `std::vector<uint8_t>`: the loop reads what there is, over the old elements, and throws where
-- there is no more.
abbrev pub resize : ℕ → List ℕ → List ℕ
resize n old = take n old ++ replicate (n - length old) 0

abbrev pub fill_vector : List ℕ → ℕ → Stream → Got (List ℕ)
fill_vector old n s =
    if ltb (length s.bytes) (s.ptr + n)
    then thrown (drop s.ptr s.bytes ++ drop (length s.bytes - s.ptr) (resize n old))
        (record s { ptr = length s.bytes })
    else value (slice s.ptr n s.bytes) (record s { ptr = s.ptr + n })

abbrev pub vector_of : List ℕ → Got ℕ → Got (List ℕ)
vector_of old out_of_range = out_of_range
vector_of old (thrown n s) = thrown old s
vector_of old (value n s) = fill_vector old n s

unfoldable pub get_vector : List ℕ → Stream → Got (List ℕ)
unfolding get_word
get_vector old s = vector_of old (get_word 2 s)

unfoldable pub push_vector : List ℕ → Stream → Stream
unfolding push_word
push_vector bs s = push_raw bs (push_word 2 (length bs % u16_mod) s)

-- `std::string`.
unfoldable pub get_text : Stream → Got (List ℕ)
get_text s =
    let n = get_or s.bytes s.ptr 0 in
    if leb (length s.bytes) s.ptr
    then thrown [] s
    else if ltb (length s.bytes) (n + (s.ptr + 1))
    then thrown [] (record s { ptr = s.ptr + 1 })
    else value (slice (s.ptr + 1) n s.bytes) (record s { ptr = s.ptr + 1 + n })

unfoldable pub push_text : List ℕ → Stream → Stream
push_text cs s = push_raw cs (push_byte (length cs) s)
