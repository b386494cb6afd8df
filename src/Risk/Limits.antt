-- ===== src/Risk/Limits.antt =====
-- include/mm/risk/RiskLimits.hpp, and `validate_for_arming` of src/risk/RiskTypes.cpp. The table of
-- symbols is a list of at most 32 entries.
use crypto_mm_engine.Prelude.{
  ℕ, Bool, true, false, not, ◌||◌, List, [], ◌∷◌, ◌++◌, Option, none, some, if◌then◌else◌, leb,
  length,
}
use crypto_mm_engine.Prelude.Int.{ℤ, pos, leb_ℤ}
use crypto_mm_engine.Common.Types.{Symbol, Nanos, same_text, Status, ok_code, failed_precondition}
use crypto_mm_engine.Common.Fixed.{Qty, Notional, is_positive}

pub record SymbolLimits : Type 0 where
  pub symbol : Symbol
  pub max_position : Qty
  pub max_position_notional : Notional
  pub max_order_quantity : Qty
  pub max_order_notional : Notional
  pub max_working_exposure : Qty
  pub max_side_exposure : Qty
  pub max_open_orders : ℤ
  pub price_band_bps : ℤ

pub record GlobalLimits : Type 0 where
  pub max_portfolio_notional : Notional
  pub max_open_orders_total : ℤ
  pub max_daily_loss : Notional
  pub max_session_loss : Notional
  pub emergency_loss : Notional
  pub max_new_orders_per_second : ℤ
  pub max_cancels_per_second : ℤ
  pub max_replaces_per_second : ℤ
  pub max_actions_per_second : ℤ
  pub burst_capacity : ℤ
  pub max_market_data_age_ns : Nanos
  pub max_position_age_ns : Nanos

pub record RiskLimits : Type 0 where
  pub global : GlobalLimits
  pub symbols : List SymbolLimits

abbrev pub max_symbols : ℕ
max_symbols = 32

unfoldable pub find_in : Symbol → List SymbolLimits → Option SymbolLimits
find_in symbol [] = none
find_in symbol (s ∷ ss) = if same_text s.symbol symbol then some s else find_in symbol ss

unfoldable pub find : Symbol → RiskLimits → Option SymbolLimits
unfolding find_in
find symbol limits = find_in symbol limits.symbols

abbrev pub is_found : Option SymbolLimits → Bool
is_found none = false
is_found (some s) = true

unfoldable pub add_limits : SymbolLimits → RiskLimits → Bool × RiskLimits
unfolding find
add_limits s limits =
    if leb max_symbols (length limits.symbols) || is_found (find s.symbol limits)
    then (false, limits)
    else (true, record limits { symbols = limits.symbols ++ s ∷ [] })

-- What the loop of `validate_for_arming` asks of each symbol.
unfoldable pub validate_symbol : SymbolLimits → Status
validate_symbol s =
    if not (is_positive s.max_position)
    then failed_precondition
    else if not (is_positive s.max_order_quantity)
    then failed_precondition
    else if not (is_positive s.max_order_notional)
    then failed_precondition
    else if leb_ℤ s.max_open_orders (pos 0)
    then failed_precondition
    else ok_code

-- The first status that is not ok.
abbrev pub first_error : Status → Status → Status
first_error ok_code s = s
first_error e s = e

unfoldable pub validate_symbols : List SymbolLimits → Status
unfolding validate_symbol
validate_symbols [] = ok_code
validate_symbols (s ∷ ss) = first_error (validate_symbol s) (validate_symbols ss)

unfoldable pub validate_for_arming : RiskLimits → Status
validate_for_arming limits =
    if leb (length limits.symbols) 0
    then failed_precondition
    else first_error (validate_symbols limits.symbols) (
        if leb_ℤ limits.global.max_market_data_age_ns (pos 0)
          || leb_ℤ limits.global.max_position_age_ns (pos 0)
        then failed_precondition
        else ok_code)
