-- ===== src/Numerics/Integers.antt =====
-- Numbers and matrices of integers, to run the models that take src/o3ds' floating point and Eigen
-- as parameters. A value of a million or more counts as not finite.
use open3dstream.Base.{refl, if◌then◌else◌}
use open3dstream.Base.Int.{
  ℤ, pos, negate, ◌+ℤ◌, ◌*ℤ◌, ltb_ℤ, eqb_ℤ, *ℤ_one, *ℤ_minus_one, negate-negate,
}
use open3dstream.Numerics.{Quad, Matrix, Numerics, IsExact}

abbrev dot : Quad ℤ → Quad ℤ → ℤ
dot a b = a.x *ℤ b.x +ℤ a.y *ℤ b.y +ℤ a.z *ℤ b.z +ℤ a.w *ℤ b.w

abbrev columns : Matrix ℤ → Matrix ℤ
columns m = record {
  x = record { x = m.x.x; y = m.y.x; z = m.z.x; w = m.w.x };
  y = record { x = m.x.y; y = m.y.y; z = m.z.y; w = m.w.y };
  z = record { x = m.x.z; y = m.y.z; z = m.z.z; w = m.w.z };
  w = record { x = m.x.w; y = m.y.w; z = m.z.w; w = m.w.w };
}

abbrev row_times : Quad ℤ → Matrix ℤ → Quad ℤ
row_times r c = record { x = dot r c.x; y = dot r c.y; z = dot r c.z; w = dot r c.w }

abbrev size : ℤ → ℤ
size a = if ltb_ℤ a (pos 0) then negate a else a

abbrev pub integers : Numerics
integers = record {
  F = ℤ;
  null = pos 0;
  one = pos 1;
  neg = negate;
  mul = ◌*ℤ◌;
  div_single = λ a b. a;
  equal = eqb_ℤ;
  less = ltb_ℤ;
  is_finite = λ a. ltb_ℤ (size a) (pos 1_000_000);
  single = λ a. a;
  literal = λ m p n. pos 1;
  product = λ a b. record {
    x = row_times a.x (columns b);
    y = row_times a.y (columns b);
    z = row_times a.z (columns b);
    w = row_times a.w (columns b);
  };
  distance =
      λ a b. size (a.x +ℤ negate b.x) +ℤ size (a.y +ℤ negate b.y) +ℤ size (a.z +ℤ negate b.z);
  angular_distance = λ a b. size (a.x +ℤ negate b.x) +ℤ size (a.w +ℤ negate b.w);
  normalized = λ q. q;
  rotation_matrix = λ q. record {
    x = record { x = q.w; y = q.z; z = pos 0 };
    y = record { x = negate q.z; y = q.w; z = pos 0 };
    z = record { x = pos 0; y = pos 0; z = pos 1 };
  };
  abs = size;
}

pub integers-IsExact : IsExact integers
integers-IsExact = record {
  mul_one = *ℤ_one;
  mul_minus_one = *ℤ_minus_one;
  neg_neg = negate-negate;
  equal_self = refl;
  equal_minus_one = refl;
  minus_one_less = refl;
  one_not_less = refl;
  div_self = λ m p n h i j k. refl;
}
