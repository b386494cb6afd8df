-- ===== src/Paper/Matching.antt =====
-- What src/exchange/paper/PaperMatcher.cpp takes from the levels, against what they show.
use crypto_mm_engine.Prelude.{
  ℕ, ◌+◌, ◌*◌, ◌/◌, ◌^◌, ◌≤◌, ◌<◌, ◌≡◌, refl, Bool, true, false, List, [], ◌∷◌, All, leb, arith,
  ◌∙◌, Bool-cases, Option-cases, inl, inr,
}
use native.Mathlib.Nat.{div-le_of_le-mul, mul-le-mul_left}
use crypto_mm_engine.Prelude.Int.{
  ℤ, pos, negsuc, pos_part, ◌+ℤ◌, ◌-ℤ◌, ◌*ℤ◌, ◌/ℤ◌, ◌≤ℤ◌, wrap64, IsInt64, +ℤ_parts, -ℤ_parts,
}
use crypto_mm_engine.Common.Fixed.{Qty, is_positive, checked_add, checked_sub, min_Fixed}
use crypto_mm_engine.Common.Fixed.Checked.{checked_add-some, checked_sub-some, checked_sub_fits}
use crypto_mm_engine.OrderBook.Levels.{PriceLevel}
use crypto_mm_engine.Paper.Matcher.{
  PaperOrder, MatchResult, Walk, WalkStep, displayed_liquidity, apply_share, take_from, visit_level,
  walk_levels, match_displayed, match_and_consume, no_match, remaining_qty, is_open_status,
  is_executable,
}

-- A displayed quantity: not negative, in range.
abbrev pub IsShown : PriceLevel → Type 0
IsShown l = (pos 0 ≤ℤ l.quantity) × IsInt64 l.quantity

-- What the levels show together.
abbrev pub total : List PriceLevel → ℕ
total [] = 0
total (l ∷ ls) = pos_part l.quantity + total ls

share_le : (q bps : ℕ) → bps < 10_000 → (q * bps) / 10_000 ≤ q
share_le q bps h =
    let less : bps ≤ 10_000 = omega arith in
    let scaled = mul-le-mul_left q less in div-le_of_le-mul 10_000 (omega (arith, scaled))

scaled_exact : (q bps : ℕ) → (pos q *ℤ pos bps) /ℤ pos 10_000 ≡ pos (q * bps / 10_000)
unfolding ◌*ℤ◌ ◌/ℤ◌
scaled_exact q bps = ground arith

wrap64_small : (n : ℕ) → n < 2 ^ 63 → wrap64 (pos n) ≡ pos n
unfolding wrap64
wrap64_small n h = ground arith

difference_fits :
    (a b : ℤ)
    → pos 0 ≤ℤ b
    → b ≤ℤ a
    → IsInt64 a
    → IsInt64 (a -ℤ b) × (pos 0 ≤ℤ (a -ℤ b)) × (pos_part (a -ℤ b) + pos_part b ≡ pos_part a)
unfolding ◌-ℤ◌
difference_fits (pos a) (pos b) l m i = ground arith
difference_fits (pos a) (negsuc b) l m i = absurd (ground arith)
difference_fits (negsuc a) (pos b) l m i = absurd (ground arith)
difference_fits (negsuc a) (negsuc b) l m i = absurd (ground arith)

apply_share-bounded :
    (q : Qty) (bps : ℕ)
    → pos 0 ≤ℤ q
    → IsInt64 q
    → (pos 0 ≤ℤ apply_share q bps) × (apply_share q bps ≤ℤ q)
unfolding apply_share
apply_share-bounded (pos q) bps h i = elim (Bool-cases (leb 10_000 bps)) [
  | inl e ↦ rw e (ground arith)
  | inr e ↦
      (let small = share_le q bps (ground arith) in
        rw (e, scaled_exact q bps, wrap64_small (q * bps / 10_000) (omega arith)) (omega arith))
]
apply_share-bounded (negsuc q) bps h i = absurd (ground arith)

-- What one level does: nothing is made or lost, and the order gets no more than remains.
record IsFair (remaining : Qty) (l : PriceLevel) (w : Walk) (s : WalkStep) : Type 0 where
  pub shown : IsShown s.level
  pub started : pos 0 ≤ℤ s.walk.filled
  pub enough : s.walk.filled ≤ℤ remaining
  pub conserved :
      pos_part s.level.quantity + pos_part s.walk.filled ≡ pos_part l.quantity + pos_part w.filled

take_from-IsFair :
    (remaining : Qty) (l : PriceLevel) (taken : Qty) (w : Walk)
    → IsShown l
    → pos 0 ≤ℤ w.filled
    → w.filled ≤ℤ remaining
    → pos 0 ≤ℤ taken
    → taken ≤ℤ l.quantity
    → (w.filled +ℤ taken) ≤ℤ remaining
    → IsFair remaining l w (take_from remaining l taken w)
unfolding take_from
take_from-IsFair remaining l taken w shown started enough some_taken affordable fits =
    elim (Option-cases (checked_add w.filled taken)) [
      | inl e ↦
          rw e (record { shown = shown; started = started; enough = enough; conserved = refl })
      | inr (next, e) ↦
          (let exact = (checked_add-some w.filled taken e).0 in
            let left =
              checked_sub_fits l.quantity taken
                (difference_fits l.quantity taken some_taken affordable shown.1).0 in
            rw (e, left)
              (ground (
                arith,
                exact,
                difference_fits l.quantity taken some_taken affordable shown.1,
                +ℤ_parts w.filled taken,
              )))
    ]

min_bounds :
    (a b c : ℤ)
    → pos 0 ≤ℤ a
    → a ≤ℤ c
    → pos 0 ≤ℤ b
    → (pos 0 ≤ℤ min_Fixed a b) × (min_Fixed a b ≤ℤ c) × (min_Fixed a b ≤ℤ b)
min_bounds a b c h k l = ground arith

room_fits : (r f room t : ℤ) → room ≡ r -ℤ f → t ≤ℤ room → (f +ℤ t) ≤ℤ r
room_fits r f room t e h = ground (arith, e, -ℤ_parts r f, +ℤ_parts f t)

visit_level-IsFair :
    (o : PaperOrder) (bps : ℕ) (remaining : Qty) (l : PriceLevel) (w : Walk)
    → IsShown l
    → pos 0 ≤ℤ w.filled
    → w.filled ≤ℤ remaining
    → IsFair remaining l w (visit_level o bps remaining l w)
unfolding visit_level
visit_level-IsFair o bps remaining l w shown started enough =
    let available = apply_share l.quantity bps in
    let share = apply_share-bounded l.quantity bps shown.0 shown.1 in
    let still : (g : Bool) → IsFair remaining l w (record { goes_on = g; level = l; walk = w }) =
      λ g. record { shown = shown; started = started; enough = enough; conserved = refl } in
    elim (Bool-cases (is_executable o.side o.price l.price)) [
      | inr e ↦ rw e (still false)
      | inl e ↦ rw e (elim (Bool-cases (is_positive available)) [
        | inr p ↦ rw p (still true)
        | inl p ↦ rw p (elim (Option-cases (checked_sub remaining w.filled)) [
          | inl f ↦ rw f (still false)
          | inr (room, f) ↦ rw f (elim (Bool-cases (is_positive room)) [
            | inr q ↦ rw q (still false)
            | inl q ↦
                (let (taken_some, taken_all, taken_room) =
                    min_bounds available room l.quantity share.0 share.1 (ground (arith, q)) in
                  let fits =
                    room_fits remaining w.filled room (min_Fixed available room)
                      (checked_sub-some remaining w.filled f).0 taken_room in
                  rw q (
                    take_from-IsFair remaining l (min_Fixed available room) w shown started enough
                      taken_some taken_all fits))
          ])
        ])
      ])
    ]

-- The same for the whole loop.
record IsWalked (remaining : Qty) (levels : List PriceLevel) (w : Walk) (r : List PriceLevel × Walk)
    : Type 0 where
  pub shown : All IsShown r.0
  pub started : pos 0 ≤ℤ r.1.filled
  pub enough : r.1.filled ≤ℤ remaining
  pub conserved : total r.0 + pos_part r.1.filled ≡ total levels + pos_part w.filled

walk_levels-IsWalked :
    (o : PaperOrder) (bps : ℕ) (remaining : Qty) (levels : List PriceLevel) (w : Walk)
    → All IsShown levels
    → pos 0 ≤ℤ w.filled
    → w.filled ≤ℤ remaining
    → IsWalked remaining levels w (walk_levels o bps remaining levels w)
unfolding walk_levels
walk_levels-IsWalked o bps remaining [] w shown started enough = record {
  shown = tt;
  started = started;
  enough = enough;
  conserved = refl;
}
walk_levels-IsWalked o bps remaining (l ∷ ls) w (shown, all_shown) started enough =
    let s = visit_level o bps remaining l w in
    let fair = visit_level-IsFair o bps remaining l w shown started enough in
    let rest = walk_levels-IsWalked o bps remaining ls s.walk all_shown fair.started fair.enough in
    elim (Bool-cases s.goes_on) [
      | inl g ↦ rw g (record {
        shown = (fair.shown, rest.shown);
        started = rest.started;
        enough = rest.enough;
        conserved = omega (arith, rest.conserved, fair.conserved);
      })
      | inr g ↦ rw g (record {
        shown = (fair.shown, all_shown);
        started = fair.started;
        enough = fair.enough;
        conserved = omega (arith, fair.conserved);
      })
    ]

-- A match against the levels, and the levels after it.
pub record IsMatch (o : PaperOrder) (levels : List PriceLevel) (r : MatchResult × List PriceLevel)
    : Type 0 where
  pub not_negative : pos 0 ≤ℤ r.0.quantity
  pub enough : r.0.quantity ≤ℤ remaining_qty o
  pub shown : All IsShown r.1
  pub conserved : total r.1 + pos_part r.0.quantity ≡ total levels

remaining_qty_nonneg : (o : PaperOrder) → pos 0 ≤ℤ remaining_qty o
unfolding remaining_qty
remaining_qty_nonneg o = elim (Option-cases (checked_sub o.original_qty o.cumulative_qty)) [
  | inl e ↦ rw e (omega arith)
  | inr (out, e) ↦ rw e (ground arith)
]

no_match-IsMatch :
    (o : PaperOrder) (levels : List PriceLevel)
    → All IsShown levels
    → IsMatch o levels (no_match, levels)
no_match-IsMatch o levels shown = record {
  not_negative = omega arith;
  enough = remaining_qty_nonneg o;
  shown = shown;
  conserved = omega arith;
}

match_displayed-IsMatch :
    (o : PaperOrder) (bps : ℕ) (levels : List PriceLevel)
    → All IsShown levels
    → IsMatch o levels (match_displayed o bps (remaining_qty o) levels)
unfolding match_displayed
match_displayed-IsMatch o bps levels shown =
    let start : Walk = record { filled = pos 0; value = pos 0; consumed = 0 } in
    let r = walk_levels o bps (remaining_qty o) levels start in
    let walked =
      walk_levels-IsWalked o bps (remaining_qty o) levels start shown (omega arith)
        (remaining_qty_nonneg o) in
    elim (Bool-cases (is_positive r.1.filled)) [
      | inl p ↦ rw p (record {
        not_negative = walked.started;
        enough = walked.enough;
        shown = walked.shown;
        conserved = walked.conserved ∙ omega arith;
      })
      | inr p ↦ rw p (record {
        not_negative = omega arith;
        enough = remaining_qty_nonneg o;
        shown = walked.shown;
        conserved = ground (arith, walked.conserved, walked.started);
      })
    ]

-- Against displayed liquidity, with quantities that are not negative, a match takes no more than what
-- remains of the order, and what the levels show afterwards and what is matched add up to what they
-- showed before: no displayed quantity is given out twice.
pub match_and_consume-IsMatch :
    (o : PaperOrder) (levels : List PriceLevel) (bps : ℕ)
    → All IsShown levels
    → IsMatch o levels (match_and_consume o levels displayed_liquidity bps)
unfolding match_and_consume
match_and_consume-IsMatch o levels bps shown = elim (Bool-cases (is_open_status o.status)) [
  | inr e ↦ rw e (no_match-IsMatch o levels shown)
  | inl e ↦ rw e (elim (Bool-cases (is_positive (remaining_qty o))) [
    | inr p ↦ rw p (no_match-IsMatch o levels shown)
    | inl p ↦ rw p (match_displayed-IsMatch o bps levels shown)
  ])
]
