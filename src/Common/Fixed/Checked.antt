-- ===== src/Common/Fixed/Checked.antt =====
-- The checked operations and the saturating absolute value, against the exact integers.
use crypto_mm_engine.Prelude.{none, ℕ, ◌-◌, ◌≤◌, min, ◌<◌, ◌^◌, ◌≡◌, some, arith}
use crypto_mm_engine.Prelude.Int.{ℤ, pos, negsuc, neg_part, magnitude, ◌+ℤ◌, ◌-ℤ◌, IsInt64, wrap64}
use crypto_mm_engine.Common.Fixed.{narrow, checked_add, checked_sub, saturating_abs}

-- A value is narrowed to itself exactly if it fits.
pub narrow_fits : (a : ℤ) → IsInt64 a → narrow a ≡ some a
unfolding narrow
narrow_fits a h = ground arith

pub narrow-some : (a : ℤ) {r : ℤ} → narrow a ≡ some r → (r ≡ a) × IsInt64 r
unfolding narrow
narrow-some (pos n) h = ground arith
narrow-some (negsuc n) h = ground arith

-- `checked_add` gives the exact sum, in range, or refuses.
pub checked_add-some : (a b : ℤ) {r : ℤ} → checked_add a b ≡ some r → (r ≡ a +ℤ b) × IsInt64 r
unfolding checked_add
checked_add-some a b h = narrow-some (a +ℤ b) h

pub checked_sub-some : (a b : ℤ) {r : ℤ} → checked_sub a b ≡ some r → (r ≡ a -ℤ b) × IsInt64 r
unfolding checked_sub
checked_sub-some a b h = narrow-some (a -ℤ b) h

pub checked_sub_fits : (a b : ℤ) → IsInt64 (a -ℤ b) → checked_sub a b ≡ some (a -ℤ b)
unfolding checked_sub
checked_sub_fits a b h = narrow_fits (a -ℤ b) h

pub checked_add_fits : (a b : ℤ) → IsInt64 (a +ℤ b) → checked_add a b ≡ some (a +ℤ b)
unfolding checked_add
checked_add_fits a b h = narrow_fits (a +ℤ b) h

-- The absolute value is exact but at the least value, where it saturates.
pub saturating_abs-magnitude :
    (v : ℤ) → neg_part v < 2 ^ 63 → IsInt64 v → saturating_abs v ≡ pos (magnitude v)
unfolding saturating_abs wrap64 ◌-ℤ◌
saturating_abs-magnitude (pos n) h v = ground arith
saturating_abs-magnitude (negsuc n) h v = ground arith

-- The absolute value that the code computes with: exact, but one less at the least value.
abbrev pub size : ℤ → ℕ
size v = min (magnitude v) (2 ^ 63 - 1)

pub saturating_abs-size : (v : ℤ) → IsInt64 v → saturating_abs v ≡ pos (size v)
unfolding saturating_abs wrap64 ◌-ℤ◌
saturating_abs-size (pos n) h = ground arith
saturating_abs-size (negsuc n) h = ground arith

pub narrow_pos : (n : ℕ) → n < 2 ^ 63 → narrow (pos n) ≡ some (pos n)
narrow_pos n h = narrow_fits (pos n) (h, omega arith)

pub narrow_big : (n : ℕ) → 2 ^ 63 ≤ n → narrow (pos n) ≡ none
unfolding narrow
narrow_big n h = ground arith
