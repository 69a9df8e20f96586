-- ===== src/LiveLink/Names.antt =====
-- The names of bones in plugins/unreal/.../Open3DStreamSource.cpp: what follows the last colon.
use Prim.Native.String.{String, [], ◌∷◌}
use Prim.Native.Char.{code}
use open3dstream.Base.{Bool, true, false, ◌==◌, if◌then◌else◌}

abbrev has_colon : String → Bool
has_colon [] = false
has_colon (c ∷ s) = if code c == 58 then true else has_colon s

unfoldable pub after_colon : String → String
after_colon [] = []
after_colon (c ∷ s) =
    let rest = after_colon s in if has_colon s then rest else if code c == 58 then s else c ∷ s
