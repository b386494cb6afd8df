-- ===== src/Risk/Unavailable.antt =====
-- Decisions of src/risk/RiskEngine.cpp on the portfolio that src/portfolio/PortfolioAccountant.cpp reports.
use crypto_mm_engine.Prelude.{
  ◌≡◌, refl, Bool, true, false, ◌||◌, List, arith, ◌∙◌, ap, if◌then◌else◌, Bool-cases, inl, inr,
}
use crypto_mm_engine.Common.Types.{Nanos}
use crypto_mm_engine.Common.Fixed.{is_positive}
use crypto_mm_engine.Common.Doubles.{Doubles}
use crypto_mm_engine.Portfolio.Types.{arithmetic_overflow}
use crypto_mm_engine.Portfolio.Accountant.{PortfolioAccountant, FillEvent, on_fill}
use crypto_mm_engine.Portfolio.Accountant.Totals.{risk_view}
use crypto_mm_engine.Portfolio.Accountant.Ledger.{LedgerCall, calls, overflow_sticks}
use crypto_mm_engine.Quote.Actions.{OrderAction}
use crypto_mm_engine.Risk.Types.{RiskState, RiskReason, is_clear, ownership_violation, ◌or_else◌}
use crypto_mm_engine.Risk.Limits.{GlobalLimits}
use crypto_mm_engine.Risk.Exposure.{PortfolioState}
use crypto_mm_engine.Risk.Decision.{RiskInput, Readings, RiskEngine, permits_exposure}
use crypto_mm_engine.Risk.Checks.{
  screen, screen_portfolio, screen_state, screen_market, screen_position, has_loss_limits,
  is_foreign,
}
use crypto_mm_engine.Risk.Engine.{evaluate}
use crypto_mm_engine.Risk.Safety.{evaluate-IsLet}

or_else-clear : (a b : RiskReason) → is_clear (a or_else b) ≡ true → is_clear b ≡ true
or_else-clear a b h = elim (Bool-cases (is_clear a)) [
  | inl e ↦ ground (arith, e)
  | inr e ↦ absurd (ground (arith, e))
]

owned-clear :
    (foreign : Bool) (r : RiskReason)
    → is_clear (if foreign then ownership_violation else r) ≡ true
    → is_clear r ≡ true
owned-clear true r h = absurd (ground arith)
owned-clear false r h = h

-- A limit on the portfolio as a whole is set.
abbrev pub needs_portfolio : GlobalLimits → Bool
needs_portfolio global = is_positive global.max_portfolio_notional || has_loss_limits global

screen_portfolio-invalid :
    (now : Nanos) (portfolio : PortfolioState) (global : GlobalLimits)
    → needs_portfolio global ≡ true
    → portfolio.valid ≡ false
    → is_clear (screen_portfolio now portfolio global) ≡ false
unfolding screen_portfolio
screen_portfolio-invalid now portfolio global n v = rw (n, v) refl

screen-clear :
    (state : RiskState) (global : GlobalLimits) (t : Readings) (action : OrderAction)
    (input : RiskInput)
    → is_clear (screen state global t action input) ≡ true
    → is_clear (screen_portfolio t.at_portfolio input.portfolio global) ≡ true
unfolding screen
screen-clear state global t action input h =
    let market = screen_market input global in
    let position = screen_position t.at_position input global in
    let portfolio = screen_portfolio t.at_portfolio input.portfolio global in
    or_else-clear position portfolio (
      or_else-clear market (position or_else portfolio) (
        or_else-clear (screen_state state) (market or_else position or_else portfolio)
          (owned-clear (is_foreign action input) _ h)))

module _ (d : Doubles) where
  unavailable_never :
      (action : OrderAction) (input : RiskInput) (t : Readings) (e : RiskEngine d)
      → needs_portfolio e.limits.global ≡ true
      → input.portfolio.valid ≡ false
      → permits_exposure (evaluate d action input t e).0 ≡ false
  unavailable_never action input t e n v =
      elim (Bool-cases (permits_exposure (evaluate d action input t e).0)) [
        | inl h ↦
            (let let_through = evaluate-IsLet d action input t e h in
              let clear =
                screen-clear e.state e.limits.global t action input let_through.screened in
              absurd (
                ground (
                  arith,
                  clear,
                  screen_portfolio-invalid t.at_portfolio input.portfolio e.limits.global n v,
                )))
        | inr h ↦ h
      ]

  -- If a fill overflows the ledger, then after any further registrations, fills, marks and balance
  -- updates an engine that has a limit on the portfolio's exposure or losses, and reads the ledger's
  -- view at any time, lets no action add exposure.
  pub overflow_stops_exposure :
      (f : FillEvent) (p : PortfolioAccountant) (cs : List LedgerCall) (now : Nanos)
      (action : OrderAction) (input : RiskInput) (t : Readings) (e : RiskEngine d)
      → (on_fill f p).0.error ≡ arithmetic_overflow
      → needs_portfolio e.limits.global ≡ true
      → input.portfolio ≡ risk_view now (calls cs (on_fill f p).1)
      → permits_exposure (evaluate d action input t e).0 ≡ false
  unfolding risk_view
  overflow_stops_exposure f p cs now action input t e h n i =
      unavailable_never action input t e n (ap (λ s. s.valid) i ∙ overflow_sticks f p cs now h)
