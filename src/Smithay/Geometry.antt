-- ===== src/Smithay/Geometry.antt =====
-- Points, sizes and rectangles over `i32`, and the wrap-around of `i32` arithmetic in the release
-- profile.
use electrum.Prelude.{ltb, ◌==◌, if◌then◌else◌, ℕ, suc, ◌-◌, ◌/◌, ◌%◌, ◌^◌, ◌≤◌, ◌<◌, Bool, ◌&&◌}
use electrum.Prelude.Int.{ℤ, pos, negsuc, pos_part, neg_part, sub_ℕ, ltb_ℤ}

abbrev pub i32_max : ℕ
i32_max = 2 ^ 31 - 1

-- The signed reading of a number below 2^32.
abbrev pub signed : ℕ → ℤ
signed n = if ltb n (2 ^ 31) then pos n else negsuc (2 ^ 32 - 1 - n)

pub wrap_i32 : ℤ → ℤ
wrap_i32 (pos n) = signed (n % 2 ^ 32)
wrap_i32 (negsuc n) = signed (2 ^ 32 - 1 - n % 2 ^ 32)

-- The values of an `i32`.
abbrev pub InRange : ℤ → Type 0
InRange a = (pos_part a < 2 ^ 31) × (neg_part a ≤ 2 ^ 31)

-- `==` on `i32`
abbrev pub eq_i32 : ℤ → ℤ → Bool
eq_i32 a b = pos_part a == pos_part b && neg_part a == neg_part b

-- `std::cmp::min` and `std::cmp::max`
abbrev pub min_i32 : ℤ → ℤ → ℤ
min_i32 a b = if ltb_ℤ b a then b else a

abbrev pub max_i32 : ℤ → ℤ → ℤ
max_i32 a b = if ltb_ℤ b a then a else b

-- `a / n` for a positive `n`: the quotient is rounded towards zero.
abbrev pub div_i32 : ℤ → ℕ → ℤ
div_i32 (pos a) n = pos (a / n)
div_i32 (negsuc a) n = sub_ℕ 0 (suc a / n)

pub record Point : Type 0 where
  pub x : ℤ
  pub y : ℤ

pub record Size : Type 0 where
  pub w : ℤ
  pub h : ℤ

pub record Rectangle : Type 0 where
  pub loc : Point
  pub size : Size
