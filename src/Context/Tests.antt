-- ===== src/Context/Tests.antt =====
-- Runs of the model of src/o3ds/context.cpp, and its theorems at concrete contexts.
use open3dstream.Base.{◌≡◌, refl, true, ◌&&◌}
use open3dstream.Base.Int.{ℤ, pos, negsuc, ◌*ℤ◌}
use open3dstream.Numerics.{Triple, Quad}
use open3dstream.Numerics.Integers.{integers, integers-IsExact}
use open3dstream.Context.Axes.{valid, mobu, unreal, no_context, axis_id}
use open3dstream.Context.Conversion.{
  convert, compute_conversion, find_source, unit_to_metres, convert_translation, convert_rotation,
  convert_scale, is_identity,
}
use open3dstream.Context.Totality.{convert-is_valid, Converts, convert-Converts}
use open3dstream.Context.Inverse.{convert_roundtrip}
use open3dstream.Context.Rotation.{rotation_roundtrip}
use open3dstream.Context.Same.{convert_self-is_identity}

abbrev point : Triple ℤ
point = record { x = pos 1; y = pos 2; z = pos 3 }

abbrev turn : Quad ℤ
turn = record { x = pos 1; y = pos 2; z = pos 3; w = pos 4 }

-- Forward is minus back: Unreal's x is Mobu's z, negated.
mobu_to_unreal :
    convert_translation integers (convert integers mobu unreal) point
    ≡ record { x = negsuc 2; y = pos 1; z = pos 2 }
unfolding convert convert_translation compute_conversion find_source axis_id valid mobu unreal ◌*ℤ◌
    unit_to_metres
mobu_to_unreal = refl

convert-is_valid_example :
    (convert integers mobu no_context).is_valid ≡ valid no_context && valid mobu
convert-is_valid_example = convert-is_valid integers mobu no_context

convert-Converts_example : Converts integers mobu unreal (convert integers mobu unreal)
unfolding valid axis_id mobu unreal
convert-Converts_example = convert-Converts integers mobu unreal refl refl

convert_roundtrip_example :
    (mobu.distance ≡ unreal.distance
      → (t : Triple ℤ)
      → convert_translation integers
          (convert integers unreal mobu)
          (convert_translation integers (convert integers mobu unreal) t)
        ≡ t)
    × ((s : Triple ℤ)
        → convert_scale integers
            (convert integers unreal mobu)
            (convert_scale integers (convert integers mobu unreal) s)
          ≡ s)
unfolding valid axis_id mobu unreal
convert_roundtrip_example = convert_roundtrip integers integers-IsExact mobu unreal refl refl

rotation_roundtrip_example :
    convert_rotation integers
      (convert integers unreal mobu)
      (convert_rotation integers (convert integers mobu unreal) turn)
    ≡ turn
unfolding valid axis_id mobu unreal
rotation_roundtrip_example = rotation_roundtrip integers integers-IsExact mobu unreal turn refl refl

convert_self-is_identity_example : is_identity integers (convert integers unreal unreal) ≡ true
unfolding valid axis_id unreal
convert_self-is_identity_example = convert_self-is_identity integers integers-IsExact unreal refl
