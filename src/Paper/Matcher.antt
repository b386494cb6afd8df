-- ===== src/Paper/Matcher.antt =====
-- include/mm/exchange/paper/PaperOrder.hpp and src/exchange/paper/PaperMatcher.cpp: what of an order
-- executes against the levels of the other side, which lose what is taken. Of an order the ids, the
-- type and the times, which the matcher does not read, are left out.
use crypto_mm_engine.Prelude.{
  ℕ, Bool, true, false, not, ◌&&◌, List, [], ◌∷◌, if◌then◌else◌, leb, case_option, ◌%◌, ◌+◌, ◌^◌,
}
use crypto_mm_engine.Prelude.Int.{ℤ, pos, ◌+ℤ◌, ◌*ℤ◌, ◌/ℤ◌, leb_ℤ, wrap64}
use crypto_mm_engine.Common.Types.{Side}
use crypto_mm_engine.Common.Fixed.{
  Px, Qty, is_positive, is_negative, checked_add, checked_sub, min_Fixed,
}
use crypto_mm_engine.OrderBook.{OrderBook, is_valid}
use crypto_mm_engine.OrderBook.Levels.{PriceLevel, front_price}
use crypto_mm_engine.Oms.Lifecycle.{OrderStatus, status_new, status_partially_filled}

pub data FillModel : Type 0 where
  displayed_liquidity full_on_cross : FillModel

pub record PaperOrder : Type 0 where
  pub side : Side
  pub price : Px
  pub original_qty : Qty
  pub cumulative_qty : Qty
  pub status : OrderStatus

unfoldable pub remaining_qty : PaperOrder → Qty
remaining_qty o =
    case_option (checked_sub o.original_qty o.cumulative_qty) (pos 0)
      (λ out. if is_negative out then pos 0 else out)

abbrev pub is_open_status : OrderStatus → Bool
is_open_status status_new = true
is_open_status status_partially_filled = true
is_open_status _ = false

-- `order.price >= price` for a buy, `order.price <= price` for a sell.
abbrev pub is_executable : Side → Px → Px → Bool
is_executable Side.buy limit price = leb_ℤ price limit
is_executable Side.sell limit price = leb_ℤ limit price

unfoldable pub would_cross : PaperOrder → Px → Bool
would_cross o opposite_px = is_positive opposite_px && is_executable o.side o.price opposite_px

-- The 128-bit product over 10000 is narrowed without a check.
unfoldable pub apply_share : Qty → ℕ → Qty
apply_share qty bps = if leb 10_000 bps then qty else wrap64 ((qty *ℤ pos bps) /ℤ pos 10_000)

abbrev pub executable_side : OrderBook → Side → List PriceLevel
executable_side book Side.buy = book.asks
executable_side book Side.sell = book.bids

unfoldable pub is_marketable_on_arrival : PaperOrder → OrderBook → Bool
unfolding would_cross
is_marketable_on_arrival o book =
    is_valid book && would_cross o (front_price (executable_side book o.side))

-- `MatchResult`; the liquidity is always Maker.
pub record MatchResult : Type 0 where
  pub quantity : Qty
  pub price : Px
  pub levels_consumed : ℕ

abbrev pub no_match : MatchResult
no_match = record { quantity = pos 0; price = pos 0; levels_consumed = 0 }

-- The locals of the loop; the value is a 128-bit integer.
pub record Walk : Type 0 where
  pub filled : Qty
  pub value : ℤ
  pub consumed : ℕ

-- What one level leaves: whether the loop goes on, the level, and the locals.
pub record WalkStep : Type 0 where
  pub goes_on : Bool
  pub level : PriceLevel
  pub walk : Walk

abbrev pub after_taking : PriceLevel → Qty → PriceLevel
after_taking level taken = record level {
  quantity =
      case_option (checked_sub level.quantity taken) (pos 0)
        (λ left. if is_negative left then pos 0 else left);
}

-- `take` is taken from the level.
unfoldable pub take_from : Qty → PriceLevel → Qty → Walk → WalkStep
take_from remaining level taken w =
    case_option (checked_add w.filled taken) (record { goes_on = false; level = level; walk = w })
      (λ next. record {
        goes_on = not (leb_ℤ remaining next);
        level = after_taking level taken;
        walk = record {
          filled = next;
          value = w.value +ℤ taken *ℤ level.price;
          consumed = (w.consumed + 1) % 2 ^ 32;
        };
      })

-- The loop body.
unfoldable pub visit_level : PaperOrder → ℕ → Qty → PriceLevel → Walk → WalkStep
unfolding apply_share take_from
visit_level o bps remaining level w =
    let available = apply_share level.quantity bps in
    let halt : WalkStep = record { goes_on = false; level = level; walk = w } in
    if not (is_executable o.side o.price level.price)
    then halt
    else if not (is_positive available)
    then record { goes_on = true; level = level; walk = w }
    else case_option (checked_sub remaining w.filled) halt (λ room.
      if not (is_positive room)
      then halt
      else take_from remaining level (min_Fixed available room) w)

unfoldable pub walk_levels : PaperOrder → ℕ → Qty → List PriceLevel → Walk → List PriceLevel × Walk
unfolding visit_level
walk_levels o bps remaining [] w = ([], w)
walk_levels o bps remaining (l ∷ ls) w =
    let s = visit_level o bps remaining l w in
    let rest = walk_levels o bps remaining ls s.walk in
    if s.goes_on then (s.level ∷ rest.0, rest.1) else (s.level ∷ ls, s.walk)

-- The model that fills everything at the order's own limit.
unfoldable pub match_on_cross : PaperOrder → Qty → List PriceLevel → MatchResult × List PriceLevel
match_on_cross o remaining [] = (no_match, [])
match_on_cross o remaining (l ∷ ls) =
    if not (is_executable o.side o.price l.price) then (no_match, l ∷ ls) else (
      record { quantity = remaining; price = o.price; levels_consumed = 1 },
      after_taking l remaining ∷ ls,
    )

-- The model that takes what is displayed.
unfoldable pub match_displayed :
    PaperOrder → ℕ → Qty → List PriceLevel → MatchResult × List PriceLevel
unfolding walk_levels
match_displayed o bps remaining levels =
    let r =
      walk_levels o bps remaining levels (record { filled = pos 0; value = pos 0; consumed = 0 }) in
    let w = r.1 in
    if not (is_positive w.filled)
    then (record no_match { levels_consumed = w.consumed }, r.0)
    else (
      record {
        quantity = w.filled;
        price = wrap64 (w.value /ℤ w.filled);
        levels_consumed = w.consumed;
      },
      r.0,
    )

abbrev pub match_by_model :
    FillModel → PaperOrder → ℕ → Qty → List PriceLevel → MatchResult × List PriceLevel
match_by_model full_on_cross o bps remaining levels = match_on_cross o remaining levels
match_by_model displayed_liquidity o bps remaining levels = match_displayed o bps remaining levels

-- No level: both models answer no match.
unfoldable pub match_and_consume :
    PaperOrder → List PriceLevel → FillModel → ℕ → MatchResult × List PriceLevel
unfolding remaining_qty
match_and_consume o levels model bps =
    if not (is_open_status o.status)
    then (no_match, levels)
    else if not (is_positive (remaining_qty o))
    then (no_match, levels)
    else match_by_model model o bps (remaining_qty o) levels

unfoldable pub match_against_book : PaperOrder → OrderBook → FillModel → ℕ → MatchResult
unfolding match_and_consume
match_against_book o book model bps =
    if not (is_valid book)
    then no_match
    else (match_and_consume o (executable_side book o.side) model bps).0
