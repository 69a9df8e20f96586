-- ===== src/Stream/Items.antt =====
-- A row of values in a `BinaryStream` (src/o3ds/binary_stream.cpp), with `>>` and `<<`.
use open3dstream.Base.{ℕ, ◌<◌, List, [], ◌∷◌, Option, some, none, length}
use open3dstream.Base.Words.{u16_mod, u32_mod, u64_mod}
use open3dstream.Stream.{
  Stream, Got, value, thrown, out_of_range, get_word, push_word, get_byte, push_byte, get_vector,
  push_vector, get_text, push_text, get_double,
}

-- The values that a stream can hold: bytes, words of two, four and eight bytes, a `float` and a
-- `double` by the words of their bits, vectors, strings.
pub data Item : Type 0 where
  byte : ℕ → Item
  u16 : ℕ → Item
  u32 : ℕ → Item
  u64 : ℕ → Item
  float : ℕ → Item
  double : ℕ → Item
  vector : List ℕ → Item
  text : List ℕ → Item

-- What is asked for; `get(double&)` also looks at the bits of the variable.
pub data Shape : Type 0 where
  a_byte : Shape
  a_u16 : Shape
  a_u32 : Shape
  a_u64 : Shape
  a_float : Shape
  a_double : ℕ → Shape
  a_vector : Shape
  a_text : Shape

abbrev pub shape_of : Item → Shape
shape_of (byte b) = a_byte
shape_of (u16 x) = a_u16
shape_of (u32 x) = a_u32
shape_of (u64 x) = a_u64
shape_of (float x) = a_float
shape_of (double x) = a_double 0
shape_of (vector bs) = a_vector
shape_of (text cs) = a_text

-- `<<`.
unfoldable pub push : Item → Stream → Stream
unfolding push_word push_vector push_text
push (byte b) s = push_byte b s
push (u16 x) s = push_word 2 x s
push (u32 x) s = push_word 4 x s
push (u64 x) s = push_word 8 x s
push (float x) s = push_word 4 x s
push (double x) s = push_word 8 x s
push (vector bs) s = push_vector bs s
push (text cs) s = push_text cs s

unfoldable pub push_all : List Item → Stream → Stream
unfolding push
push_all [] s = s
push_all (i ∷ is) s = push_all is (push i s)

abbrev pub got_map : {A B : Type 0} → (A → B) → Got A → Got B
got_map f out_of_range = out_of_range
got_map f (thrown a s) = thrown (f a) s
got_map f (value a s) = value (f a) s

-- `>>`, into a new variable, or one of type `double`.
unfoldable pub get : Shape → Stream → Got Item
unfolding get_byte get_word get_vector get_text get_double
get a_byte s = got_map byte (get_byte s)
get a_u16 s = got_map u16 (get_word 2 s)
get a_u32 s = got_map u32 (get_word 4 s)
get a_u64 s = got_map u64 (get_word 8 s)
get a_float s = got_map float (get_word 4 s)
get (a_double old) s = got_map double (get_double old s)
get a_vector s = got_map vector (get_vector [] s)
get a_text s = got_map text (get_text s)

-- One after the other, up to an exception.
abbrev pub got_then : {A B : Type 0} → Got A → (A → Stream → Option B) → Option B
got_then out_of_range f = none
got_then (thrown a s) f = none
got_then (value a s) f = f a s

unfoldable pub get_all : List Shape → Stream → Option (List Item × Stream)
unfolding get
get_all [] s = some ([], s)
get_all (k ∷ ks) s =
    got_then (get k s) (λ i t. elim (get_all ks t) [ none ↦ none | some r ↦ some (i ∷ r.0, r.1) ])

-- The values that are read as they were written, which no `double` is.
abbrev pub Fits : Item → Type 0
Fits (byte b) = b < 256
Fits (u16 x) = x < u16_mod
Fits (u32 x) = x < u32_mod
Fits (u64 x) = x < u64_mod
Fits (float x) = x < u32_mod
Fits (double x) = ⊥
Fits (vector bs) = length bs < u16_mod
Fits (text cs) = length cs < 256

abbrev pub AllFit : List Item → Type 0
AllFit [] = Unit {0}
AllFit (i ∷ is) = Fits i × AllFit is
