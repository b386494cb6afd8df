-- ===== src/Portfolio/Account.antt =====
-- include/mm/portfolio/PositionAccount.hpp and src/portfolio/PositionAccount.cpp: one symbol's
-- position, cost basis and PnL. Each method returns its result with the new account.
use crypto_mm_engine.Prelude.{
  ℕ, Bool, true, false, not, ◌&&◌, Option, none, some, if◌then◌else◌, ◌>>=◌,
}
use crypto_mm_engine.Prelude.Int.{pos, ◌+ℤ◌, ◌*ℤ◌, ◌/ℤ◌, ltb_ℤ}
use crypto_mm_engine.Common.Types.{Side, Symbol, TradeId, Nanos, is_empty, inc64}
use crypto_mm_engine.Common.Fixed.{
  Px, Qty, Notional, is_zero, is_positive, is_negative, sub, narrow, checked_add, checked_sub,
  checked_notional_of, saturating_abs,
}
use crypto_mm_engine.Portfolio.Types.{
  AccountingError, no_error, invalid_quantity, invalid_price, duplicate_fill, missing_trade_id,
  arithmetic_overflow, invalid_mark, stale_mark, corrupt_snapshot, account_faulted, FillOutcome,
  PnlBreakdown, MarkPrice, usable, for_position,
}
use crypto_mm_engine.Portfolio.SeenTrades.{SeenTrades, contains, insert}

pub record PositionAccount : Type 0 where
  pub symbol : Symbol
  pub position : Qty
  pub average_price : Px
  pub realized : Notional
  pub unrealized : Notional
  pub fees : Notional
  pub last_mark : Px
  pub fill_count : ℕ
  pub unrealized_valid : Bool
  pub faulted : Bool
  pub seen : SeenTrades

unfoldable pub abs_notional : Px → Qty → Option Notional
abs_notional price quantity = checked_notional_of price (saturating_abs quantity)

-- The average of two prices by absolute quantity, in 128 bits.
unfoldable pub weighted_average : Px → Qty → Px → Qty → Option Px
weighted_average a qa b qb = do
  total ← checked_add (saturating_abs qa) (saturating_abs qb)
  if not (is_positive total)
      then none
      else narrow ((a *ℤ saturating_abs qa +ℤ b *ℤ saturating_abs qb) /ℤ total)

unfoldable pub realized_of : Px → Px → Qty → Bool → Option Notional
realized_of entry exit_price closed long_position = do
  move ← checked_sub exit_price entry
  checked_notional_of (if long_position then move else sub (pos 0) move) (saturating_abs closed)

-- What a fill does to the cost basis: the new average, the realized PnL and whether it flips.
pub record CostChange : Type 0 where
  pub average : Px
  pub delta : Notional
  pub flips : Bool

-- The branch for a fill against the position.
unfoldable pub reduce : PositionAccount → Px → Qty → Qty → Option CostChange
reduce a price signed_fill new_position = do
  let held = saturating_abs a.position
  let incoming = saturating_abs signed_fill
  let closed = if ltb_ℤ incoming held then incoming else held
  delta ← realized_of a.average_price price closed (is_positive a.position)
  some (
      if ltb_ℤ held incoming
      then record { average = price; delta = delta; flips = true }
      else if is_zero new_position
      then record { average = pos 0; delta = delta; flips = false }
      else record { average = a.average_price; delta = delta; flips = false })

abbrev pub same_sign : Bool → Bool → Bool
same_sign true b = b
same_sign false b = not b

unfoldable pub change_cost : PositionAccount → Px → Qty → Qty → Option CostChange
change_cost a price signed_fill new_position =
    if is_zero a.position
    then some (record { average = price; delta = pos 0; flips = false })
    else if same_sign (is_negative a.position) (is_negative signed_fill)
    then (weighted_average a.average_price a.position price signed_fill >>= λ average.
        some (record { average = average; delta = pos 0; flips = false }))
    else reduce a price signed_fill new_position

-- Everything that is computed before the commit.
pub record FillPlan : Type 0 where
  pub position : Qty
  pub cost : CostChange
  pub realized : Notional
  pub fees : Notional

unfoldable pub plan_fill : PositionAccount → Px → Qty → Notional → Option FillPlan
plan_fill a price signed_fill fee = do
  new_position ← checked_add a.position signed_fill
  cost ← change_cost a price signed_fill new_position
  new_cost ← checked_notional_of cost.average new_position
  new_realized ← checked_add a.realized cost.delta
  new_fees ← checked_add a.fees fee
  some (record { position = new_position; cost = cost; realized = new_realized; fees = new_fees })

abbrev pub refused : AccountingError → FillOutcome
refused e = record {
  error = e;
  applied_quantity = pos 0;
  realized_delta = pos 0;
  fee = pos 0;
  flipped = false;
  closed = false;
}

unfoldable pub commit : TradeId → FillPlan → PositionAccount → PositionAccount
commit id p a = record a {
  position = p.position;
  average_price = p.cost.average;
  realized = p.realized;
  fees = p.fees;
  fill_count = inc64 a.fill_count;
  seen = (insert id a.seen).1;
  unrealized = pos 0;
  unrealized_valid = is_zero p.position;
}

unfoldable pub signed_quantity : Side → Qty → Qty
signed_quantity Side.buy quantity = quantity
signed_quantity Side.sell quantity = sub (pos 0) quantity

-- The guards, in the order of the source.
unfoldable pub check_fill : TradeId → Px → Qty → Notional → PositionAccount → AccountingError
check_fill id price quantity fee a =
    if a.faulted
    then account_faulted
    else if is_empty id
    then missing_trade_id
    else if not (is_positive quantity)
    then invalid_quantity
    else if not (is_positive price)
    then invalid_price
    else if is_negative fee
    then invalid_quantity
    else if contains id a.seen
    then duplicate_fill
    else no_error

abbrev pub finish_fill :
    TradeId → Qty → Notional → PositionAccount → Option FillPlan → FillOutcome × PositionAccount
finish_fill id signed_fill fee a none = (refused arithmetic_overflow, a)
finish_fill id signed_fill fee a (some p) = (
  record {
    error = no_error;
    applied_quantity = signed_fill;
    realized_delta = p.cost.delta;
    fee = fee;
    flipped = p.cost.flips;
    closed = is_zero p.position;
  },
  commit id p a,
)

abbrev pub after_checks :
    AccountingError
    → FillOutcome × PositionAccount
    → PositionAccount
    → FillOutcome × PositionAccount
after_checks no_error result a = result
after_checks e result a = (refused e, a)

unfoldable pub apply_fill :
    TradeId → Side → Px → Qty → Notional → PositionAccount → FillOutcome × PositionAccount
apply_fill id side price quantity fee a =
    after_checks (check_fill id price quantity fee a)
      (finish_fill id (signed_quantity side quantity) fee a
        (plan_fill a price (signed_quantity side quantity) fee))
      a

-- A mark that cannot be used.
unfoldable pub unmark : PositionAccount → PositionAccount
unmark a = record a { unrealized_valid = is_zero a.position; unrealized = pos 0 }

abbrev pub finish_mark : PositionAccount → Option Notional → AccountingError × PositionAccount
finish_mark a none =
    (arithmetic_overflow, record a { unrealized_valid = false; unrealized = pos 0 })
finish_mark a (some value) = (no_error, record a { unrealized = value; unrealized_valid = true })

unfoldable pub apply_mark :
    MarkPrice → Nanos → Nanos → PositionAccount → AccountingError × PositionAccount
unfolding unmark
apply_mark mark now_ns max_age_ns a =
    if not (usable mark)
    then (invalid_mark, unmark a)
    else if ltb_ℤ (pos 0) max_age_ns
        && not (is_zero mark.as_of_ns)
        && ltb_ℤ max_age_ns (sub now_ns mark.as_of_ns)
    then (stale_mark, unmark a)
    else let mark_price = for_position mark a.position in
      let a' = record a { last_mark = mark_price } in
      if is_zero a.position
      then (no_error, record a' { unrealized = pos 0; unrealized_valid = true })
      else finish_mark a'
          (realized_of a.average_price mark_price a.position (is_positive a.position))

unfoldable pub checked_cost_basis : PositionAccount → Option Notional
checked_cost_basis a = checked_notional_of a.average_price a.position

unfoldable pub mark_or_average : PositionAccount → Px
mark_or_average a = if is_positive a.last_mark then a.last_mark else a.average_price

unfoldable pub checked_gross_exposure : PositionAccount → Option Notional
unfolding mark_or_average
checked_gross_exposure a =
    if is_zero a.position
    then some (pos 0)
    else if not (is_positive (mark_or_average a))
    then none
    else abs_notional (mark_or_average a) a.position

unfoldable pub pnl : PositionAccount → PnlBreakdown
pnl a = record {
  realized = a.realized;
  unrealized = a.unrealized;
  fees = a.fees;
  funding = pos 0;
  unrealized_valid = a.unrealized_valid;
}

unfoldable pub fault : PositionAccount → PositionAccount
fault a = record a { faulted = true }

unfoldable pub clear_fault : PositionAccount → PositionAccount
clear_fault a = record a { faulted = false }

-- `PositionAccount::State`.
pub record State : Type 0 where
  pub symbol : Symbol
  pub position : Qty
  pub average_price : Px
  pub realized : Notional
  pub fees : Notional
  pub fill_count : ℕ
  pub seen : SeenTrades
  pub faulted : Bool

unfoldable pub save : PositionAccount → State
save a = record {
  symbol = a.symbol;
  position = a.position;
  average_price = a.average_price;
  realized = a.realized;
  fees = a.fees;
  fill_count = a.fill_count;
  seen = a.seen;
  faulted = a.faulted;
}

unfoldable pub restore : State → PositionAccount → AccountingError × PositionAccount
restore s a =
    if is_negative s.fees
    then (corrupt_snapshot, a)
    else if not (is_zero s.position) && not (is_positive s.average_price)
    then (corrupt_snapshot, a)
    else if is_zero s.position && is_positive s.average_price
    then (corrupt_snapshot, a)
    else (
      no_error,
      record {
        symbol = s.symbol;
        position = s.position;
        average_price = s.average_price;
        realized = s.realized;
        unrealized = pos 0;
        fees = s.fees;
        last_mark = pos 0;
        fill_count = s.fill_count;
        unrealized_valid = is_zero s.position;
        faulted = s.faulted;
        seen = s.seen;
      },
    )
