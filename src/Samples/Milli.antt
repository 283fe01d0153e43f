-- ===== src/Samples/Milli.antt =====
-- A number type that meets the laws of `Float`: integers that count thousandths. Literals and
-- quotients are rounded to thousandths.
use conflict_graph.Prelude.{ℕ, zero, suc, ◌+◌, ◌*◌, ◌/◌, ◌^◌, [], ◌∷◌, arith}
use conflict_graph.Prelude.Int.{ℤ, pos, pos_part, neg_part, sub_ℕ, ◌+ℤ◌, ◌-ℤ◌, leb_ℤ}
use conflict_graph.Prelude.Float.{Float, IsOrdered}

abbrev scaled_mul : ℤ → ℤ → ℤ
scaled_mul a b =
    sub_ℕ ((pos_part a * pos_part b + neg_part a * neg_part b) / 1000)
      ((pos_part a * neg_part b + neg_part a * pos_part b) / 1000)

abbrev scaled_div : ℤ → ℤ → ℤ
scaled_div a b =
    sub_ℕ (1000 * pos_part a / (pos_part b + neg_part b))
      (1000 * neg_part a / (pos_part b + neg_part b))

abbrev scaled_pow : ℤ → ℕ → ℤ
scaled_pow a zero = pos 1000
scaled_pow a (suc n) = scaled_mul a (scaled_pow a n)

instance abbrev pub milli : Float ℤ
milli = record {
  lit = λ m k. pos (1000 * m / 10 ^ k);
  le = leb_ℤ;
  add = ◌+ℤ◌;
  sub = ◌-ℤ◌;
  mul = scaled_mul;
  div = scaled_div;
  pow = scaled_pow;
  percent = λ x. pos_part x ∷ [];
}

pub milli-IsOrdered : IsOrdered ℤ
milli-IsOrdered = record {
  le_refl = λ x. ground arith;
  le_trans = λ x y z h k. ground arith;
  le_total = λ x y. ground arith;
  le-add = λ x d h. ground arith;
  sub-le = λ x y. ground arith;
  lit-nonneg = λ m k. ground arith;
}
