-- ===== src/Portfolio/Average.antt =====
-- The weighted average of src/portfolio/PositionAccount.cpp and its two prices.
use native.Mathlib.Nat.{le-div_iff_mul-le, div-lt_iff_lt-mul}
use crypto_mm_engine.Prelude.{
  ℕ, suc, ◌+◌, ◌*◌, ◌/◌, ◌≤◌, ◌<◌, ◌^◌, ◌≡◌, some, none, arith, inl, inr, sym, ◌∙◌, not, le-total,
  >>=-eq-some, ◌>>=◌, ltb, ◌&&◌, if◌then◌else◌, ◌-◌, true,
}
use crypto_mm_engine.Prelude.Int.{
  ℤ, pos, negsuc, ◌+ℤ◌, ◌*ℤ◌, ◌/ℤ◌, ◌≤ℤ◌, ltb_ℤ, IsInt64, pos_laws, pos-+ℤ, pos-*ℤ, pos-/ℤ,
}
use crypto_mm_engine.Common.Fixed.{
  Px, Qty, is_positive, min_Fixed, checked_add, narrow, saturating_abs,
}
use crypto_mm_engine.Common.Fixed.Checked.{
  narrow-some, narrow_pos, narrow_big, size, saturating_abs-size,
}
use crypto_mm_engine.Portfolio.Account.{weighted_average}

weighted_lower : (m a b wa wb : ℕ) → m ≤ a → m ≤ b → 0 < wa + wb → m ≤ (a * wa + b * wb) / (wa + wb)
weighted_lower m a b wa wb ha hb t = (le-div_iff_mul-le t).1 (grind arith)

weighted_upper : (m a b wa wb : ℕ) → a ≤ m → b ≤ m → 0 < wa + wb → (a * wa + b * wb) / (wa + wb) ≤ m
weighted_upper m a b wa wb ha hb t =
    let below : (a * wa + b * wb) / (wa + wb) < suc m = (div-lt_iff_lt-mul t).1 (grind arith) in
    omega arith

-- The exact quotient at positive numbers.
average_at :
    (a b wa wb : ℕ)
    → (pos a *ℤ pos wa +ℤ pos b *ℤ pos wb) /ℤ (pos wa +ℤ pos wb)
      ≡ pos ((a * wa + b * wb) / (wa + wb))
average_at a b wa wb = simp pos_laws

average_small :
    (a b wa wb : ℕ) → a < 2 ^ 63 → b < 2 ^ 63 → 0 < wa + wb → (a * wa + b * wb) / (wa + wb) < 2 ^ 63
average_small a b wa wb ha hb t =
    let top = weighted_upper (2 ^ 63 - 1) a b wa wb (omega arith) (omega arith) t in omega arith

average_in_range :
    (n t : ℕ)
    → (0 < t → n / t < 2 ^ 63)
    → (if not (is_positive (pos t)) then none else narrow (pos n /ℤ pos t))
      ≡ (if ltb 0 t then some (pos (n / t)) else none)
average_in_range n t small = elim (le-total t 0) [
  | inl z ↦ ground arith
  | inr p ↦ rw (pos-/ℤ n t) (ground (arith, narrow_pos (n / t) (small p)))
]

finish_average :
    (n t : ℕ)
    → (0 < t → n / t < 2 ^ 63)
    → (narrow (pos t) >>= λ total.
        if not (is_positive total) then none else narrow (pos n /ℤ total))
      ≡ (if ltb 0 t && ltb t (2 ^ 63) then some (pos (n / t)) else none)
finish_average n t small = elim (le-total (2 ^ 63) t) [
  | inl big ↦ rw (narrow_big t big) (ground arith)
  | inr fits ↦ rw (narrow_pos t fits) (rw (average_in_range n t small) (ground arith))
]

-- For positive prices the average is refused only if the two sizes do not add up to a positive
-- 64-bit number; otherwise it is the exact weighted average, rounded down.
pub weighted_average_lem :
    (a b : ℕ) (qa qb : Qty)
    → a < 2 ^ 63
    → b < 2 ^ 63
    → IsInt64 qa
    → IsInt64 qb
    → weighted_average (pos a) qa (pos b) qb ≡ (
        if ltb 0 (size qa + size qb) && ltb (size qa + size qb) (2 ^ 63)
        then some (pos ((a * size qa + b * size qb) / (size qa + size qb)))
        else none)
unfolding weighted_average checked_add
weighted_average_lem a b qa qb ha hb ia ib =
    simp (saturating_abs-size qa ia, saturating_abs-size qb ib, pos-+ℤ, pos-*ℤ)
      (finish_average (a * size qa + b * size qb) (size qa + size qb)
        (average_small a b (size qa) (size qb) ha hb))

abbrev pub max_Fixed : ℤ → ℤ → ℤ
max_Fixed a b = if ltb_ℤ a b then b else a

average_bounds :
    (a b wa wb : ℕ)
    → 0 < wa + wb
    → (min_Fixed (pos a) (pos b) ≤ℤ pos ((a * wa + b * wb) / (wa + wb)))
      × (pos ((a * wa + b * wb) / (wa + wb)) ≤ℤ max_Fixed (pos a) (pos b))
average_bounds a b wa wb t = elim (le-total a b) [
  | inl h ↦ ground (
    arith,
    weighted_lower a a b wa wb (omega arith) h t,
    weighted_upper b a b wa wb h (omega arith) t,
  )
  | inr h ↦ ground (
    arith,
    weighted_lower b a b wa wb (omega arith) (omega arith) t,
    weighted_upper a a b wa wb (omega arith) (omega arith) t,
  )
]

pub some_average :
    (n t : ℕ) (r : ℤ)
    → (if ltb 0 t && ltb t (2 ^ 63) then some (pos (n / t)) else none) ≡ some r
    → (0 < t) × (r ≡ pos (n / t))
some_average n t r e = ground arith

-- The average entry price lies between the two prices that it averages, and is positive.
pub weighted_average_between :
    (a b : Px) (qa qb : Qty) {r : Px}
    → is_positive a ≡ true
    → is_positive b ≡ true
    → IsInt64 a
    → IsInt64 b
    → IsInt64 qa
    → IsInt64 qb
    → weighted_average a qa b qb ≡ some r
    → (min_Fixed a b ≤ℤ r) × (r ≤ℤ max_Fixed a b) × (is_positive r ≡ true)
weighted_average_between (pos a) (pos b) qa qb {r} pa pb ia ib iqa iqb e =
    let (t, same) =
      some_average (a * size qa + b * size qb) (size qa + size qb) r
        (sym (weighted_average_lem a b qa qb ia.0 ib.0 iqa iqb) ∙ e) in
    let bounds = average_bounds a b (size qa) (size qb) t in
    let low = weighted_lower 1 a b (size qa) (size qb) (ground arith) (ground arith) t in
    rw same (bounds.0, bounds.1, ground arith)
weighted_average_between (negsuc a) b qa qb pa pb ia ib iqa iqb e = ground arith
weighted_average_between (pos a) (negsuc b) qa qb pa pb ia ib iqa iqb e = ground arith

pub weighted_average-IsInt64 :
    (a b : Px) (qa qb : Qty) {r : Px} → weighted_average a qa b qb ≡ some r → IsInt64 r
unfolding weighted_average
weighted_average-IsInt64 a b qa qb {r} e =
    let (total, e₁, r₁) = >>=-eq-some (checked_add (saturating_abs qa) (saturating_abs qb)) _ e in
    (narrow-some ((a *ℤ saturating_abs qa +ℤ b *ℤ saturating_abs qb) /ℤ total)
      (ground (arith, r₁))).1
