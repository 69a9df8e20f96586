-- ===== src/Context/Helpers.antt =====
-- The two helpers of src/o3ds/context.cpp that nothing calls.
use open3dstream.Base.{ℕ, ◌==◌, if◌then◌else◌}
use open3dstream.Base.Int.{ℤ, pos, negsuc}
use open3dstream.Numerics.{Numerics}
use open3dstream.Context.Axes.{Direction, Context, axis_id, same_direction}

unfoldable pub find_axis : Context → Direction → ℤ
unfolding axis_id
find_axis c d =
    if axis_id c.x == axis_id d
    then pos 0
    else if axis_id c.y == axis_id d
    then pos 1
    else if axis_id c.z == axis_id d
    then pos 2
    else negsuc 0

abbrev slot_direction : Context → ℕ → Direction
slot_direction c slot = if slot == 0 then c.x else if slot == 1 then c.y else c.z

module _ (N : Numerics) where
  open N use {F, null, one, neg}

  unfoldable pub axis_sign : Context → ℕ → Direction → F
  unfolding axis_id
  axis_sign c slot d =
      if same_direction (slot_direction c slot) d
      then one
      else if axis_id (slot_direction c slot) == axis_id d
      then neg one
      else null
