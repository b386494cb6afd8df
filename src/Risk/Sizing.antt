-- ===== src/Risk/Sizing.antt =====
-- What `check_order_bounds` of src/risk/RiskEngine.cpp establishes of a quantity.
use crypto_mm_engine.Prelude.{
  ◌≡◌, refl, true, false, not, ◌&&◌, if◌then◌else◌, some, Option-cases, inl, inr, arith,
}
use crypto_mm_engine.Prelude.Int.{ℤ, ◌*ℤ◌, ◌/ℤ◌, ◌≤ℤ◌, ltb_ℤ, IsInt64}
use crypto_mm_engine.Common.Fixed.{Px, Qty, is_positive, scale, checked_notional_of}
use crypto_mm_engine.Common.Fixed.Checked.{narrow-some}
use crypto_mm_engine.Common.Doubles.{Doubles}
use crypto_mm_engine.Quote.Actions.{OrderAction}
use crypto_mm_engine.Risk.Types.{
  RiskReason, no_reason, is_clear, max_order_notional, reduction_invalid, ◌or_else◌,
}
use crypto_mm_engine.Risk.Limits.{SymbolLimits}
use crypto_mm_engine.Risk.Decision.{RiskInput, LimitContext}
use crypto_mm_engine.Risk.Checks.{
  distance_bps, mid_of, check_band, passes_venue_rules, check_order_bounds,
}

-- A limit of zero is not set.
abbrev pub IsWithin : ℤ → ℤ → Type 0
IsWithin bound value = is_positive bound ≡ true → value ≤ℤ bound

pub record IsSized (d : Doubles) (action : OrderAction) (q : Qty) (input : RiskInput)
    (limits : SymbolLimits) : Type 0 where
  pub positive : is_positive q ≡ true
  pub price : is_positive action.price ≡ true
  pub quantity : IsWithin limits.max_order_quantity q
  pub notional : IsWithin limits.max_order_notional ((action.price *ℤ q) /ℤ scale)
  pub band :
      is_positive limits.price_band_bps ≡ true
      → d.less (d.of_int limits.price_band_bps) (distance_bps d action.price (mid_of input.bbo))
        ≡ false
  pub venue : passes_venue_rules action q input.instrument ≡ true

pub checked_notional_of-some :
    (p q : ℤ) {r : ℤ} → checked_notional_of p q ≡ some r → (r ≡ (p *ℤ q) /ℤ scale) × IsInt64 r
unfolding checked_notional_of
checked_notional_of-some p q h = narrow-some ((p *ℤ q) /ℤ scale) h

pub or_else_parts :
    (a b : RiskReason) → is_clear (a or_else b) ≡ true → (is_clear a ≡ true) × (is_clear b ≡ true)
or_else_parts no_reason b h = (refl, h)
or_else_parts a b h = ground arith

check_band_bound :
    (d : Doubles) (price : Px) (input : RiskInput) (limits : SymbolLimits)
    → is_clear (check_band d price input limits) ≡ true
    → is_positive limits.price_band_bps ≡ true
    → d.less (d.of_int limits.price_band_bps) (distance_bps d price (mid_of input.bbo)) ≡ false
unfolding check_band
check_band_bound d price input limits h p = ground arith

pub check_order_bounds-IsSized :
    (d : Doubles) (action : OrderAction) (q : Qty) (input : RiskInput) (limits : SymbolLimits)
    (c : LimitContext)
    → is_clear (check_order_bounds d action q input limits c).0 ≡ true
    → IsSized d action q input limits
unfolding check_order_bounds
check_order_bounds-IsSized d action q input limits c h =
    elim (Option-cases (checked_notional_of action.price q)) [
      | inl e ↦ absurd (ground (arith, e))
      | inr (v, e) ↦
          (let exact = checked_notional_of-some action.price q e in
            let worth =
              if is_positive limits.max_order_notional && ltb_ℤ limits.max_order_notional v
              then max_order_notional
              else no_reason in
            let venue =
              if not (passes_venue_rules action q input.instrument)
              then reduction_invalid
              else no_reason in
            let checked : is_clear
                  (worth or_else check_band d action.price input limits or_else venue)
                ≡ true =
              ground (arith, e) in
            let first = or_else_parts worth _ checked in
            let second = or_else_parts (check_band d action.price input limits) venue first.1 in
            record {
              positive = ground (arith, e);
              price = ground (arith, e);
              quantity = ground (arith, e);
              notional = ground (arith, first.0, exact);
              band = check_band_bound d action.price input limits second.0;
              venue = ground (arith, second.1);
            })
    ]
