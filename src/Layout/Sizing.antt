-- ===== src/Layout/Sizing.antt =====
-- src/shell/layout/mod.rs: the limits that a floating window's size keeps.
use electrum.Prelude.{
  ◌==◌, if◌then◌else◌, Bool-cases, ℕ, ◌*◌, ◌/◌, ◌≤◌, min, max, ◌≡◌, refl, ◌⊎◌, inl, inr, Bool, true,
  false, arith,
}
use electrum.Prelude.Int.{ℤ, pos, ◌*ℤ◌, ◌≤ℤ◌, ltb_ℤ}
use electrum.Smithay.Geometry.{eq_i32, min_i32, max_i32, div_i32}
use electrum.Layout.{fit_axis}

-- What becomes of a length: it stays, being at most two thirds of the zone, or it is cut, and then it
-- lies between the limits (0 is no limit) and inside the zone.
abbrev pub IsFitted : ℕ → ℕ → ℕ → ℤ → ℤ × Bool → Type 0
IsFitted zone lo hi l (r, cut) =
    ((cut ≡ false) × (r ≡ l) × (l ≤ℤ pos (zone / 3 * 2)))
    ⊎ ((cut ≡ true) × (pos lo ≤ℤ r) × (r ≤ℤ pos zone) × ((hi ≡ 0) ⊎ (r ≤ℤ pos hi)))

-- Limits that can be met inside the zone.
abbrev pub CanFit : ℕ → ℕ → ℕ → Type 0
CanFit zone lo hi = (lo ≤ zone) × ((hi ≡ 0) ⊎ (lo ≤ hi))

pub two_thirds : (zone : ℕ) → div_i32 (pos zone) 3 *ℤ pos 2 ≡ pos (zone / 3 * 2)
unfolding ◌*ℤ◌
two_thirds zone = ground arith

-- A length that was cut to `t`, then kept within the limits.
limited : ℕ → ℕ → ℕ → ℕ → ℤ
limited t zone lo hi =
    let below = if eq_i32 (pos hi) (pos 0) then pos t else min_i32 (pos hi) (pos t) in
    let above = if eq_i32 (pos lo) (pos 0) then below else max_i32 (pos lo) below in
    min_i32 above (pos zone)

limited_nat :
    (t zone lo hi : ℕ)
    → limited t zone lo hi ≡ pos (min (max lo (if hi == 0 then t else min hi t)) zone)
unfolding limited
limited_nat t zone lo hi = ground arith

limited_bounds :
    (t zone lo hi : ℕ)
    → CanFit zone lo hi
    → let r = min (max lo (if hi == 0 then t else min hi t)) zone in
      (lo ≤ r) × (r ≤ zone) × ((hi ≡ 0) ⊎ (r ≤ hi))
limited_bounds t zone lo hi h = ground arith

-- A length that is fitted on one axis lies within the limits and the zone, or is left alone.
pub fit_axis-IsFitted :
    (zone lo hi : ℕ) (l : ℤ)
    → CanFit zone lo hi
    → IsFitted zone lo hi l (fit_axis (pos zone) (pos lo) (pos hi) l)
unfolding fit_axis limited
fit_axis-IsFitted zone lo hi l h = elim (Bool-cases (ltb_ℤ (pos (zone / 3 * 2)) l)) [
  | inl e ↦
      rw (two_thirds zone, e, limited_nat (zone / 3 * 2) zone lo hi)
        (let b = limited_bounds (zone / 3 * 2) zone lo hi h in
          inr (refl, omega (arith, b.0), omega (arith, b.1), ground (arith, b.2)))
  | inr e ↦ rw (two_thirds zone, e) (inl (refl, refl, ground (arith, e)))
]

-- A length is cut exactly when it is larger than two thirds of the zone.
pub fit_axis-cut :
    (zone lo hi : ℕ) (l : ℤ)
    → (fit_axis (pos zone) (pos lo) (pos hi) l).1 ≡ ltb_ℤ (pos (zone / 3 * 2)) l
unfolding fit_axis
fit_axis-cut zone lo hi l = elim (Bool-cases (ltb_ℤ (pos (zone / 3 * 2)) l)) [
  | inl e ↦ rw (two_thirds zone, e) refl
  | inr e ↦ rw (two_thirds zone, e) refl
]
