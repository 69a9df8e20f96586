-- ===== src/Stream/Tests.antt =====
-- A stream for the theorems about `BinaryStream`.
use open3dstream.Base.{◌+◌, ◌*◌, ◌%◌, ◌/◌, List, [], ◌∷◌, map, some, length, ◌≡◌, refl, arith}
use open3dstream.Base.Words.{u32_mod}
use open3dstream.Stream.{Stream, empty, of_data, value, push_word, get_double}
use open3dstream.Stream.Items.{
  Item, byte, u32, vector, text, a_text, shape_of, push_all, get_all, get, AllFit,
}
use open3dstream.Stream.RoundTrip.{stream_roundtrip}
use open3dstream.Stream.Bounds.{Within, get-Within}
use open3dstream.Stream.Doubles.{get_double-push_word}

abbrev row : List Item
row = u32 70000 ∷ text (79 ∷ 51 ∷ []) ∷ vector (1 ∷ 2 ∷ 3 ∷ []) ∷ byte 9 ∷ []

row-AllFit : AllFit row
row-AllFit = (omega arith, (omega arith, (omega arith, (omega arith, tt))))

stream_roundtrip_example :
    get_all (map shape_of row) (push_all row empty)
    ≡ some (row, record (push_all row empty) { ptr = length (push_all row empty).bytes })
stream_roundtrip_example = stream_roundtrip row empty refl refl row-AllFit

-- A string that says that it is longer than it is.
abbrev short : Stream
short = of_data (5 ∷ 65 ∷ [])

get-Within_example : Within short (get a_text short)
get-Within_example = get-Within a_text short (omega arith)

-- The bits of 1.5, into a variable that was 0.
get_double-push_word_example :
    get_double 0 (push_word 8 4609434218613702656 empty)
    ≡ value
        (4609434218613702656 % u32_mod + u32_mod * (0 / u32_mod))
        (record (push_word 8 4609434218613702656 empty) { ptr = 0 + 4 })
get_double-push_word_example =
    get_double-push_word 4609434218613702656 0 empty refl refl (omega arith) (omega arith)
