-- ===== src/Risk/Decision.antt =====
-- include/mm/risk/RiskDecision.hpp and the records of include/mm/risk/RiskEngine.hpp. The latency
-- histogram is the list of the samples that it was given, newest first.
use crypto_mm_engine.Prelude.{ℕ, String, Bool, true, false, ◌&&◌, List}
use crypto_mm_engine.Prelude.Int.{pos}
use crypto_mm_engine.Common.Types.{Symbol, Nanos}
use crypto_mm_engine.Common.Fixed.{Qty, Notional}
use crypto_mm_engine.Common.Doubles.{Doubles}
use crypto_mm_engine.Common.Instrument.{InstrumentSpec}
use crypto_mm_engine.OrderBook.Queries.{BestBidAsk}
use crypto_mm_engine.Quote.Actions.{OrderAction, no_action, adds_exposure}
use crypto_mm_engine.Risk.Types.{RiskState, RiskVerdict, RiskReason, approve, reduce, reject}
use crypto_mm_engine.Risk.Limits.{RiskLimits}
use crypto_mm_engine.Risk.Exposure.{PositionSnapshot, ExposureSnapshot, PortfolioState}
use crypto_mm_engine.Risk.RateLimiter.{RateLimiter}

pub record ApprovedAction : Type 0 where
  pub action : OrderAction
  pub sequence : ℕ
  pub valid : Bool

abbrev pub no_approval : ApprovedAction
no_approval = record { action = no_action; sequence = 0; valid = false }

pub record LimitContext : Type 0 where
  pub max_position : Qty
  pub peak_absolute_exposure : Qty
  pub working_buy : Qty
  pub working_sell : Qty
  pub order_notional : Notional
  pub open_orders : ℕ

abbrev pub no_context : LimitContext
no_context = record {
  max_position = pos 0;
  peak_absolute_exposure = pos 0;
  working_buy = pos 0;
  working_sell = pos 0;
  order_notional = pos 0;
  open_orders = 0;
}

pub record RiskDecision : Type 0 where
  pub verdict : RiskVerdict
  pub reason : RiskReason
  pub state : RiskState
  pub requested : OrderAction
  pub approved : OrderAction
  pub approval : ApprovedAction
  pub limits : LimitContext
  pub decided_ns : Nanos
  pub generation : ℕ
  pub trace : ℕ

abbrev pub is_approving : RiskVerdict → Bool
is_approving approve = true
is_approving reduce = true
is_approving reject = false

unfoldable pub is_approved : RiskDecision → Bool
is_approved d = is_approving d.verdict

unfoldable pub permits_exposure : RiskDecision → Bool
unfolding is_approved
permits_exposure d = is_approved d && adds_exposure d.approved.type

unfoldable pub rejected : OrderAction → RiskReason → RiskState → Nanos → RiskDecision
rejected requested reason state now = record {
  verdict = reject;
  reason = reason;
  state = state;
  requested = requested;
  approved = record no_action { slot = requested.slot; symbol = requested.symbol };
  approval = no_approval;
  limits = no_context;
  decided_ns = now;
  generation = requested.generation;
  trace = requested.trace;
}

-- A decision that lets an action through, before it is stamped.
unfoldable pub granted :
    RiskVerdict
    → RiskReason
    → RiskState
    → OrderAction
    → OrderAction
    → LimitContext
    → Nanos
    → RiskDecision
granted verdict reason state requested approved context now = record {
  verdict = verdict;
  reason = reason;
  state = state;
  requested = requested;
  approved = approved;
  approval = no_approval;
  limits = context;
  decided_ns = now;
  generation = requested.generation;
  trace = requested.trace;
}

-- `instrument` is what the pointer points to; `has_instrument` says that it is not null.
pub record RiskInput : Type 0 where
  pub symbol : Symbol
  pub instrument : InstrumentSpec
  pub has_instrument : Bool
  pub position : PositionSnapshot
  pub exposure : ExposureSnapshot
  pub portfolio : PortfolioState
  pub bbo : BestBidAsk
  pub market_data_age_ns : Nanos
  pub system_ready : Bool
  pub atomic_replace : Bool
  pub replaced_order_remaining : Qty
  pub expected_owner : String

pub record RiskMetrics : Type 0 where
  pub evaluations : ℕ
  pub approvals : ℕ
  pub reductions : ℕ
  pub rejections : ℕ
  pub cancels_permitted_while_blocked : ℕ
  pub kills : ℕ
  pub rejections_by_reason : List ℕ

pub record RiskEngine (d : Doubles) : Type 0 where
  pub limits : RiskLimits
  pub state : RiskState
  pub state_reason : RiskReason
  pub new_orders : RateLimiter d
  pub cancels : RateLimiter d
  pub replaces : RateLimiter d
  pub all_actions : RateLimiter d
  pub approval_sequence : ℕ
  pub metrics : RiskMetrics
  pub latency : List Nanos

-- What the calls of `clock_.steady()` in one evaluation return.
pub record Readings : Type 0 where
  pub started : Nanos
  pub at_position : Nanos
  pub at_portfolio : Nanos
  pub at_cancel : Nanos
  pub finished : Nanos
