-- ===== src/Portfolio/Accountant/Totals.antt =====
-- The aggregation of src/portfolio/PortfolioAccountant.cpp over the accounts.
use crypto_mm_engine.Prelude.{
  ℕ, Bool, true, false, not, List, [], ◌∷◌, if◌then◌else◌, length, case_option, ◌%◌, ◌+◌, ◌^◌,
}
use crypto_mm_engine.Prelude.Int.{pos}
use crypto_mm_engine.Common.Types.{Nanos}
use crypto_mm_engine.Common.Fixed.{
  Notional, is_zero, checked_add, checked_notional_of, saturating_abs,
}
use crypto_mm_engine.Risk.Exposure.{PortfolioState}
use crypto_mm_engine.Portfolio.Types.{checked_net}
use crypto_mm_engine.Portfolio.Account.{PositionAccount, checked_gross_exposure, mark_or_average}
use crypto_mm_engine.Portfolio.Accountant.{PortfolioAccountant}

pub record PortfolioSnapshot : Type 0 where
  pub valid : Bool
  pub pnl_determinate : Bool
  pub gross_notional : Notional
  pub net_notional : Notional
  pub realized : Notional
  pub unrealized : Notional
  pub fees : Notional
  pub funding : Notional
  pub net_pnl : Notional
  pub symbols_with_position : ℕ
  pub symbol_count : ℕ
  pub sequence : ℕ
  pub as_of_ns : Nanos
  pub degraded : Bool

-- `degraded` set, `valid` and `pnl_determinate` cleared.
abbrev pub degrade : PortfolioSnapshot → PortfolioSnapshot
degrade s = record s { degraded = true; valid = false; pnl_determinate = false }

-- The signed value; an account whose value cannot be computed is passed over.
unfoldable pub add_net : PositionAccount → PortfolioSnapshot → PortfolioSnapshot
add_net a s = case_option (checked_notional_of (mark_or_average a) a.position) s (λ value.
    case_option (checked_add s.net_notional value) (record s { degraded = true; valid = false })
      (λ net. record s { net_notional = net }))

-- The realized sum is stored before the fees are added.
unfoldable pub add_pnl : PositionAccount → PortfolioSnapshot → PortfolioSnapshot
add_pnl a s = case_option (checked_add s.realized a.realized) (degrade s) (λ realized.
    let s₁ = record s { realized = realized } in
    case_option (checked_add s₁.fees a.fees) (degrade s₁) (λ fees.
      let s₂ = record s₁ { fees = fees } in
      if not a.unrealized_valid
      then record s₂ { pnl_determinate = false }
      else case_option (checked_add s₂.unrealized a.unrealized) (degrade s₂)
          (λ unrealized. record s₂ { unrealized = unrealized })))

unfoldable pub count_position : PositionAccount → PortfolioSnapshot → PortfolioSnapshot
count_position a s =
    if is_zero a.position
    then s
    else record s { symbols_with_position = (s.symbols_with_position + 1) % 2 ^ 32 }

-- The body of the loop.
unfoldable pub add_account : PositionAccount → PortfolioSnapshot → PortfolioSnapshot
add_account a s =
    if a.faulted
    then degrade s
    else let s₁ = count_position a s in
      case_option (checked_gross_exposure a) (degrade s₁) (λ gross.
        case_option (checked_add s₁.gross_notional (saturating_abs gross)) (degrade s₁)
          (λ total. add_pnl a (add_net a (record s₁ { gross_notional = total }))))

unfoldable pub add_accounts : List PositionAccount → PortfolioSnapshot → PortfolioSnapshot
add_accounts [] s = s
add_accounts (a ∷ as_) s = add_accounts as_ (add_account a s)

unfoldable pub add_total : PortfolioSnapshot → PortfolioSnapshot
add_total s =
    case_option
      (checked_net (record {
        realized = s.realized;
        unrealized = s.unrealized;
        fees = s.fees;
        funding = s.funding;
        unrealized_valid = true;
      }))
      (record (degrade s) { net_pnl = pos 0 }) (λ net. record s { net_pnl = net })

abbrev pub opening : Nanos → PortfolioAccountant → PortfolioSnapshot
opening now p = record {
  valid = true;
  pnl_determinate = true;
  gross_notional = pos 0;
  net_notional = pos 0;
  realized = pos 0;
  unrealized = pos 0;
  fees = pos 0;
  funding = pos 0;
  net_pnl = pos 0;
  symbols_with_position = 0;
  symbol_count = length p.accounts % 2 ^ 32;
  sequence = p.sequence;
  as_of_ns = now;
  degraded = false;
}

unfoldable pub portfolio_snapshot : Nanos → PortfolioAccountant → PortfolioSnapshot
portfolio_snapshot now p = add_total (add_accounts p.accounts (opening now p))

unfoldable pub risk_view : Nanos → PortfolioAccountant → PortfolioState
risk_view now p =
    let s = portfolio_snapshot now p in
    record {
      valid = s.valid;
      pnl_determinate = s.pnl_determinate;
      gross_notional = s.gross_notional;
      net_notional = s.net_notional;
      realized = s.realized;
      unrealized = s.unrealized;
      fees = s.fees;
      net_pnl = s.net_pnl;
      as_of_ns = s.as_of_ns;
      sequence = s.sequence;
    }
