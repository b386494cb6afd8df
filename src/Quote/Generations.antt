-- ===== src/Quote/Generations.antt =====
-- The order of intents in src/quote/QuoteManager.cpp.
use crypto_mm_engine.Prelude.{
  ℕ, ◌≡◌, refl, true, Option, List, [], ◌∷◌, ltb, ◌≤◌, arith, sym, ◌∙◌, subst, Bool-cases,
  Option-cases, inl, inr,
}
use crypto_mm_engine.Common.Types.{Nanos}
use crypto_mm_engine.Common.Doubles.{Doubles}
use crypto_mm_engine.Common.Instrument.{InstrumentSpec}
use crypto_mm_engine.Quote.Actions.{OrderAction, ActionReason, bid_slot, ask_slot}
use crypto_mm_engine.Quote.Working.{QuoteIntent}
use crypto_mm_engine.Quote.State.{
  QuoteManager, QuoteManagerInput, QuoteManagerResult, QuoteReadings, QuoteRejection,
  generation_regression,
}
use crypto_mm_engine.Quote.Manager.{screen}
use crypto_mm_engine.Quote.Slot.{resolve_slot}
use crypto_mm_engine.Quote.Evaluate.{
  disable_slot, disable_all_quotes, reject_intent, receive, resolve_slots, act_on, evaluate,
  count_noop, withdrawal_reason, is_admitted, desired_bid, desired_ask, count_rejection, advance,
}
use crypto_mm_engine.Quote.Base.{resolve_slot-SameBase, disable_slot-SameBase}

-- One call on a manager, other than a reset.
pub data ManagerCall : Type 0 where
  evaluates : QuoteIntent → QuoteManagerInput → QuoteReadings → ManagerCall
  disables : QuoteManagerInput → ActionReason → QuoteReadings → ManagerCall

chain : {a b c e : ℕ} → b ≡ a → b ≤ c → e ≡ c → a ≤ e
chain p l q = ground arith

module _ (d : Doubles) where
  unfoldable pub apply_call : ManagerCall → QuoteManager d → QuoteManager d
  apply_call (evaluates intent input t) m = (evaluate d intent input t m).1
  apply_call (disables input reason t) m = (disable_all_quotes d input reason t m).1

  abbrev pub apply_calls : List ManagerCall → QuoteManager d → QuoteManager d
  apply_calls [] m = m
  apply_calls (c ∷ cs) m = apply_calls cs (apply_call c m)

  disable_all_quotes-keeps :
      (input : QuoteManagerInput) (reason : ActionReason) (t : QuoteReadings) (m : QuoteManager d)
      → (disable_all_quotes d input reason t m).1.last_generation ≡ m.last_generation
  unfolding disable_all_quotes
  disable_all_quotes-keeps input reason t m =
      let first = disable_slot d bid_slot input reason t.bid.now t.bid.issued [] m in
      (disable_slot-SameBase d ask_slot input reason t.bid.now t.ask.issued first.actions
        first.manager).generation
      ∙ (disable_slot-SameBase d bid_slot input reason t.bid.now t.bid.issued [] m).generation

  advance-grows :
      (generation : ℕ) (m : QuoteManager d)
      → m.last_generation ≤ (advance d generation m).last_generation
  advance-grows generation m = ground arith

  count_noop-keeps :
      (actions : List OrderAction) (m : QuoteManager d)
      → (count_noop d actions m).last_generation ≡ m.last_generation
  count_noop-keeps actions m = ground arith

  reject_intent-advances :
      (rejection : QuoteRejection) (intent : QuoteIntent) (input : QuoteManagerInput)
      (t : QuoteReadings) (m : QuoteManager d)
      → m.last_generation ≤ (reject_intent d rejection intent input t m).1.last_generation
  unfolding reject_intent
  reject_intent-advances rejection intent input t m =
      elim (Option-cases (withdrawal_reason rejection)) [
        | inl e ↦ rw e (omega arith)
        | inr (reason, e) ↦ rw e (ground (arith, disable_all_quotes-keeps input reason t m))
      ]

  resolve_slots-advances :
      (spec : InstrumentSpec) (intent : QuoteIntent) (input : QuoteManagerInput) (t : QuoteReadings)
      (m : QuoteManager d)
      → m.last_generation ≤ (resolve_slots d spec intent input t m).1.last_generation
  unfolding resolve_slots
  resolve_slots-advances spec intent input t m =
      let bid = desired_bid intent.action intent input.working.bid in
      let ask = desired_ask intent.action intent input.working.ask in
      let first = resolve_slot d bid_slot bid spec intent input t.bid [] m in
      let one = (resolve_slot-SameBase d bid_slot bid spec intent input t.bid [] m).generation in
      let two =
        (resolve_slot-SameBase d ask_slot ask spec intent input t.ask first.actions
          first.manager).generation in
      let second =
        resolve_slot d ask_slot ask spec intent input t.ask first.actions first.manager in
      let moved = advance d intent.generation second.manager in
      chain (two ∙ one) (advance-grows intent.generation second.manager)
        (count_noop-keeps second.actions moved)

  act_on-advances :
      (rejection : QuoteRejection) (instrument : Option InstrumentSpec) (intent : QuoteIntent)
      (input : QuoteManagerInput) (t : QuoteReadings) (m : QuoteManager d)
      → m.last_generation ≤ (act_on d rejection instrument intent input t m).1.last_generation
  unfolding act_on
  act_on-advances rejection instrument intent input t m =
      let counted : QuoteManager d = record m { metrics = count_rejection rejection m.metrics } in
      let refused = reject_intent-advances rejection intent input t counted in
      elim (Bool-cases (is_admitted rejection)) [
        | inl e ↦ rw e (elim (Option-cases instrument) [
          | inl f ↦ rw f refused
          | inr (spec, f) ↦ rw f (resolve_slots-advances spec intent input t m)
        ])
        | inr e ↦ rw e refused
      ]

  evaluate-advances :
      (intent : QuoteIntent) (input : QuoteManagerInput) (t : QuoteReadings) (m : QuoteManager d)
      → m.last_generation ≤ (evaluate d intent input t m).1.last_generation
  unfolding evaluate receive
  evaluate-advances intent input t m =
      let m' = receive d intent input m in
      act_on-advances (screen d intent input t.screened m') input.instrument intent input t m'

  apply_calls-advances :
      (cs : List ManagerCall) (m : QuoteManager d)
      → m.last_generation ≤ (apply_calls cs m).last_generation
  unfolding apply_call
  apply_calls-advances [] m = omega arith
  apply_calls-advances (evaluates intent input t ∷ cs) m =
      let rest = apply_calls-advances cs (evaluate d intent input t m).1 in
      ground (arith, evaluate-advances intent input t m, rest)
  apply_calls-advances (disables input reason t ∷ cs) m =
      let rest = apply_calls-advances cs (disable_all_quotes d input reason t m).1 in
      ground (arith, disable_all_quotes-keeps input reason t m, rest)

  abbrev IsStill : QuoteManagerResult → Type 0
  IsStill r = (r.actions ≡ []) × (r.rejection ≡ generation_regression)

  act_on-IsStill :
      (instrument : Option InstrumentSpec) (intent : QuoteIntent) (input : QuoteManagerInput)
      (t : QuoteReadings) (m : QuoteManager d)
      → IsStill (act_on d generation_regression instrument intent input t m).0
  unfolding act_on reject_intent
  act_on-IsStill instrument intent input t m = (refl, refl)

  screen-regression :
      (intent : QuoteIntent) (input : QuoteManagerInput) (now : Nanos) (m : QuoteManager d)
      → ltb intent.generation m.last_generation ≡ true
      → screen d intent input now m ≡ generation_regression
  unfolding screen
  screen-regression intent input now m h = rw h refl

  regression-IsStill :
      (intent : QuoteIntent) (input : QuoteManagerInput) (t : QuoteReadings) (m : QuoteManager d)
      → ltb intent.generation m.last_generation ≡ true
      → IsStill (evaluate d intent input t m).0
  unfolding evaluate receive
  regression-IsStill intent input t m h =
      let m' = receive d intent input m in
      subst (λ r. IsStill (act_on d r input.instrument intent input t m').0)
        (sym (screen-regression intent input t.screened m' h))
        (act_on-IsStill input.instrument intent input t m')

  -- The watermark is not behind an intent that an evaluation accepted.
  abbrev Reaches : QuoteIntent → QuoteManagerResult × QuoteManager d → Type 0
  Reaches intent r = r.0.intent_accepted ≡ true → intent.generation ≤ r.1.last_generation

  advance-reaches :
      (generation : ℕ) (m : QuoteManager d) → generation ≤ (advance d generation m).last_generation
  advance-reaches generation m = ground arith

  reject_intent-Reaches :
      (rejection : QuoteRejection) (intent : QuoteIntent) (input : QuoteManagerInput)
      (t : QuoteReadings) (m : QuoteManager d)
      → Reaches intent (reject_intent d rejection intent input t m)
  unfolding reject_intent
  reject_intent-Reaches rejection intent input t m =
      elim (Option-cases (withdrawal_reason rejection)) [
        | inl e ↦ rw e (λ h. ground arith)
        | inr (reason, e) ↦
            rw e (λ h. advance-reaches intent.generation (disable_all_quotes d input reason t m).1)
      ]

  resolve_slots-Reaches :
      (spec : InstrumentSpec) (intent : QuoteIntent) (input : QuoteManagerInput) (t : QuoteReadings)
      (m : QuoteManager d)
      → Reaches intent (resolve_slots d spec intent input t m)
  unfolding resolve_slots
  resolve_slots-Reaches spec intent input t m h =
      let bid = desired_bid intent.action intent input.working.bid in
      let ask = desired_ask intent.action intent input.working.ask in
      let first = resolve_slot d bid_slot bid spec intent input t.bid [] m in
      let second =
        resolve_slot d ask_slot ask spec intent input t.ask first.actions first.manager in
      let moved = advance d intent.generation second.manager in
      chain refl (advance-reaches intent.generation second.manager)
        (count_noop-keeps second.actions moved)

  act_on-Reaches :
      (rejection : QuoteRejection) (instrument : Option InstrumentSpec) (intent : QuoteIntent)
      (input : QuoteManagerInput) (t : QuoteReadings) (m : QuoteManager d)
      → Reaches intent (act_on d rejection instrument intent input t m)
  unfolding act_on
  act_on-Reaches rejection instrument intent input t m =
      let counted : QuoteManager d = record m { metrics = count_rejection rejection m.metrics } in
      let refused = reject_intent-Reaches rejection intent input t counted in
      elim (Bool-cases (is_admitted rejection)) [
        | inl e ↦ rw e (elim (Option-cases instrument) [
          | inl f ↦ rw f refused
          | inr (spec, f) ↦ rw f (resolve_slots-Reaches spec intent input t m)
        ])
        | inr e ↦ rw e refused
      ]

  evaluate-Reaches :
      (intent : QuoteIntent) (input : QuoteManagerInput) (t : QuoteReadings) (m : QuoteManager d)
      → Reaches intent (evaluate d intent input t m)
  unfolding evaluate receive
  evaluate-Reaches intent input t m =
      let m' = receive d intent input m in
      act_on-Reaches (screen d intent input t.screened m') input.instrument intent input t m'

  -- Once an intent was accepted, so that its quotes were resolved or it made all quotes be withdrawn,
  -- an intent with a lower generation is rejected as a regression and without any action, whatever
  -- intents are evaluated and quotes withdrawn in between, while the manager is not reset.
  pub superseded_never_acts :
      (newer : QuoteIntent) (seen : QuoteManagerInput) (at : QuoteReadings) (cs : List ManagerCall)
      (intent : QuoteIntent) (input : QuoteManagerInput) (t : QuoteReadings) (m : QuoteManager d)
      → (evaluate d newer seen at m).0.intent_accepted ≡ true
      → ltb intent.generation newer.generation ≡ true
      → ((evaluate d intent input t (apply_calls cs (evaluate d newer seen at m).1)).0.actions ≡ [])
        × ((evaluate d intent input t (apply_calls cs (evaluate d newer seen at m).1)).0.rejection
            ≡ generation_regression)
  superseded_never_acts newer seen at cs intent input t m h older =
      let m' = (evaluate d newer seen at m).1 in
      regression-IsStill intent input t (apply_calls cs m')
        (ground (arith, older, evaluate-Reaches newer seen at m h, apply_calls-advances cs m'))
