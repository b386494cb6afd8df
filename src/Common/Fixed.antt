-- ===== src/Common/Fixed.antt =====
-- include/mm/common/Fixed.hpp: a `Fixed<Tag>` is its raw 64-bit integer, scaled by 10^8, and the
-- tags are type synonyms. An operator that the source leaves unchecked wraps around, as two's
-- complement does (C++ leaves a signed overflow undefined; the theorems show where none occurs).
-- A 128-bit intermediate is an exact integer: the products and sums formed here fit 128 bits.
-- A `bool` result with an out-parameter is an `Option`.
pub mod Checked
use crypto_mm_engine.Prelude.{
  ◌+◌, ◌*◌, ◌≡◌, Bool, true, false, ◌||◌, Option, none, some, if◌then◌else◌,
}
use crypto_mm_engine.Prelude.Int.{
  ℤ, pos, ◌+ℤ◌, ◌-ℤ◌, ◌*ℤ◌, ◌/ℤ◌, ltb_ℤ, leb_ℤ, eqb_ℤ, int64_min, int64_max, wrap64,
}

abbrev pub Px : Type 0
Px = ℤ

abbrev pub Qty : Type 0
Qty = ℤ

abbrev pub Notional : Type 0
Notional = ℤ

abbrev pub scale : ℤ
scale = pos 100_000_000

abbrev pub is_zero : ℤ → Bool
is_zero a = eqb_ℤ a (pos 0)

abbrev pub is_positive : ℤ → Bool
is_positive a = ltb_ℤ (pos 0) a

abbrev pub is_negative : ℤ → Bool
is_negative a = ltb_ℤ a (pos 0)

-- `operator+`, `operator-` and unary minus.
unfoldable pub add : ℤ → ℤ → ℤ
add a b = wrap64 (a +ℤ b)

unfoldable pub sub : ℤ → ℤ → ℤ
sub a b = wrap64 (a -ℤ b)

unfoldable pub neg : ℤ → ℤ
neg a = wrap64 (pos 0 -ℤ a)

abbrev pub min_Fixed : ℤ → ℤ → ℤ
min_Fixed a b = if ltb_ℤ b a then b else a

-- The range test that the checked operations share.
unfoldable pub narrow : ℤ → Option ℤ
narrow wide = if ltb_ℤ int64_max wide || ltb_ℤ wide int64_min then none else some wide

unfoldable pub scaled_by : ℤ → ℤ → ℤ → ℤ
scaled_by a num den = wrap64 ((a *ℤ num) /ℤ den)

unfoldable pub notional_of : Px → Qty → Notional
notional_of p q = wrap64 ((p *ℤ q) /ℤ scale)

unfoldable pub checked_notional_of : Px → Qty → Option Notional
checked_notional_of p q = narrow ((p *ℤ q) /ℤ scale)

unfoldable pub checked_add : ℤ → ℤ → Option ℤ
checked_add a b = narrow (a +ℤ b)

unfoldable pub checked_sub : ℤ → ℤ → Option ℤ
checked_sub a b = narrow (a -ℤ b)

unfoldable pub saturating_abs : ℤ → ℤ
saturating_abs v =
    if eqb_ℤ v int64_min then int64_max else if is_negative v then wrap64 (pos 0 -ℤ v) else v

unfoldable pub qty_for_notional : Notional → Px → Qty
qty_for_notional n p = if eqb_ℤ p (pos 0) then pos 0 else wrap64 ((n *ℤ scale) /ℤ p)

pub data Rounding : Type 0 where
  down up nearest : Rounding

-- The whole steps to add to the truncated quotient `q`, by its remainder and the step.
unfoldable pub adjust : Rounding → ℤ → ℤ → ℤ → ℤ
adjust Rounding.down q rem s = if is_negative rem then wrap64 (q -ℤ pos 1) else q
adjust Rounding.up q rem s = if is_positive rem then wrap64 (q +ℤ pos 1) else q
adjust Rounding.nearest q rem s =
    let twice = wrap64 ((if is_negative rem then wrap64 (pos 0 -ℤ rem) else rem) *ℤ pos 2) in
    if leb_ℤ s twice then wrap64 (q +ℤ (if is_positive rem then pos 1 else pos 0 -ℤ pos 1)) else q

unfoldable pub round_to_step : ℤ → ℤ → Rounding → ℤ
unfolding adjust
round_to_step v step mode =
    if leb_ℤ step (pos 0)
    then v
    else let q = v /ℤ step in
      let rem = wrap64 (v -ℤ wrap64 (q *ℤ step)) in
      wrap64 ((if eqb_ℤ rem (pos 0) then q else adjust mode q rem step) *ℤ step)

unfoldable pub is_on_step : ℤ → ℤ → Bool
is_on_step v step = leb_ℤ step (pos 0) || eqb_ℤ (v -ℤ (v /ℤ step) *ℤ step) (pos 0)
