-- ===== src/Portfolio/Accountant/Ledger.antt =====
-- Faults in the ledger of src/portfolio/PortfolioAccountant.cpp, and what risk makes of them.
use crypto_mm_engine.Prelude.{
  leb, length, ◌≡◌, refl, true, false, some, List, [], ◌∷◌, ◌++◌, arith, ◌∙◌, Option-cases,
  Bool-cases, inl, inr,
}
use crypto_mm_engine.Common.Types.{Symbol, Nanos, same_text, is_empty}
use crypto_mm_engine.Portfolio.Types.{
  AccountingError, no_error, duplicate_fill, arithmetic_overflow, FillOutcome, MarkPrice, is_none,
}
use crypto_mm_engine.Portfolio.Account.{PositionAccount, apply_fill, apply_mark, fault, commit}
use crypto_mm_engine.Portfolio.Accountant.{
  PortfolioAccountant, new_account, is_known, FillEvent, BalanceUpdateEvent, find, update,
  register_symbol, on_fill, account_fill, on_mark, account_mark, on_balance, degraded,
}
use crypto_mm_engine.Portfolio.Accountant.Totals.{portfolio_snapshot}
use crypto_mm_engine.Portfolio.Accountant.Sums.{portfolio_snapshot-IsExact}

apply_fill-faulted :
    (f : FillEvent) (a : PositionAccount)
    → (apply_fill f.trade_id f.side f.price f.quantity f.fee a).1.faulted ≡ a.faulted
unfolding apply_fill commit
apply_fill-faulted f a = ground arith

apply_mark-faulted :
    (m : MarkPrice) (now age : Nanos) (a : PositionAccount)
    → (apply_mark m now age a).1.faulted ≡ a.faulted
unfolding apply_mark
apply_mark-faulted m now age a = ground arith

-- A write that clears no fault.
update-degraded :
    (symbol : Symbol) (b : PositionAccount) (as_ : List PositionAccount) {a : PositionAccount}
    → find symbol as_ ≡ some a
    → (a.faulted ≡ true → b.faulted ≡ true)
    → degraded as_ ≡ true
    → degraded (update symbol b as_) ≡ true
unfolding find update degraded
update-degraded symbol b [] f h d = ground arith
update-degraded symbol b (x ∷ as_) {a} f h d = elim (Bool-cases (same_text x.symbol symbol)) [
  | inl e ↦ ground (arith, e)
  | inr e ↦
      (let g : find symbol as_ ≡ some a = ground (arith, e) in
        elim (Bool-cases x.faulted) [
          | inl k ↦ ground (arith, e, k)
          | inr k ↦
              (let ih = update-degraded symbol b as_ {a = a} g h (ground (arith, k)) in
                ground (arith, e, k, ih))
        ])
]

update_faulted :
    (symbol : Symbol) (b : PositionAccount) (as_ : List PositionAccount) {a : PositionAccount}
    → find symbol as_ ≡ some a
    → b.faulted ≡ true
    → degraded (update symbol b as_) ≡ true
unfolding find update degraded
update_faulted symbol b [] f h = ground arith
update_faulted symbol b (x ∷ as_) {a} f h = elim (Bool-cases (same_text x.symbol symbol)) [
  | inl e ↦ ground (arith, e)
  | inr e ↦
      (let ih = update_faulted symbol b as_ {a = a} (ground (arith, e)) h in ground (arith, e, ih))
]

-- One call on the ledger.
pub data LedgerCall : Type 0 where
  register : Symbol → LedgerCall
  fill : FillEvent → LedgerCall
  mark : MarkPrice → Nanos → LedgerCall
  balance_update : BalanceUpdateEvent → Nanos → LedgerCall

unfoldable pub call : LedgerCall → PortfolioAccountant → PortfolioAccountant
call (register symbol) p = (register_symbol symbol p).1
call (fill f) p = (on_fill f p).1
call (mark m now) p = (on_mark m now p).1
call (balance_update u now) p = (on_balance u now p).1

abbrev pub calls : List LedgerCall → PortfolioAccountant → PortfolioAccountant
calls [] p = p
calls (c ∷ cs) p = calls cs (call c p)

degraded-++ : (as_ bs : List PositionAccount) → degraded as_ ≡ true → degraded (as_ ++ bs) ≡ true
unfolding degraded
degraded-++ [] bs d = ground arith
degraded-++ (a ∷ as_) bs d = elim (Bool-cases a.faulted) [
  | inl k ↦ ground (arith, k)
  | inr k ↦ (let ih = degraded-++ as_ bs (ground (arith, k)) in ground (arith, k, ih))
]

register-degraded :
    (symbol : Symbol) (p : PortfolioAccountant)
    → degraded p.accounts ≡ true
    → degraded ((register_symbol symbol p).1.accounts) ≡ true
unfolding register_symbol
register-degraded symbol p d =
    let kept = degraded-++ p.accounts (new_account symbol ∷ []) d in
    elim (Bool-cases (is_empty symbol)) [
      | inl e ↦ rw e d
      | inr e ↦ rw e (elim (Bool-cases (is_known symbol p.accounts)) [
        | inl f ↦ rw f d
        | inr f ↦ rw f (elim (Bool-cases (leb p.config.max_symbols (length p.accounts))) [
          | inl g ↦ rw g d
          | inr g ↦ rw g kept
        ])
      ])
    ]

account_fill-degraded :
    (error : AccountingError) (o : FillOutcome) (symbol : Symbol) (b : PositionAccount)
    (p : PortfolioAccountant) {a : PositionAccount}
    → find symbol p.accounts ≡ some a
    → b.faulted ≡ a.faulted
    → degraded p.accounts ≡ true
    → degraded ((account_fill error o symbol b p).accounts) ≡ true
unfolding account_fill fault
account_fill-degraded arithmetic_overflow o symbol b p {a} f h d =
    update_faulted symbol (fault b) p.accounts {a = a} f refl
account_fill-degraded no_error o symbol b p {a} f h d =
    update-degraded symbol b p.accounts {a = a} f (λ k. h ∙ k) d
account_fill-degraded duplicate_fill o symbol b p {a} f h d =
    update-degraded symbol b p.accounts {a = a} f (λ k. h ∙ k) d
account_fill-degraded _ o symbol b p {a} f h d =
    update-degraded symbol b p.accounts {a = a} f (λ k. h ∙ k) d

on_fill-degraded :
    (f : FillEvent) (p : PortfolioAccountant)
    → degraded p.accounts ≡ true
    → degraded ((on_fill f p).1.accounts) ≡ true
unfolding on_fill
on_fill-degraded f p d = elim (Option-cases (find f.symbol p.accounts)) [
  | inl e ↦ rw e d
  | inr (a, e) ↦ rw e (account_fill-degraded _ _ f.symbol _ p {a = a} e (apply_fill-faulted f a) d)
]

on_mark-degraded :
    (m : MarkPrice) (now : Nanos) (p : PortfolioAccountant)
    → degraded p.accounts ≡ true
    → degraded ((on_mark m now p).1.accounts) ≡ true
unfolding on_mark account_mark
on_mark-degraded m now p d = elim (Option-cases (find m.symbol p.accounts)) [
  | inl e ↦ rw e d
  | inr (a, e) ↦
      (let r = apply_mark m now p.config.max_mark_age_ns a in
        let kept =
          update-degraded m.symbol r.1 p.accounts {a = a} e
            (λ k. apply_mark-faulted m now p.config.max_mark_age_ns a ∙ k) d in
        rw e (elim (Bool-cases (is_none r.0)) [ inl g ↦ rw g kept | inr g ↦ rw g kept ]))
]

on_balance-degraded :
    (u : BalanceUpdateEvent) (now : Nanos) (p : PortfolioAccountant)
    → degraded p.accounts ≡ true
    → degraded ((on_balance u now p).1.accounts) ≡ true
unfolding on_balance
on_balance-degraded u now p d = ground arith

call-degraded :
    (c : LedgerCall) (p : PortfolioAccountant)
    → degraded p.accounts ≡ true
    → degraded ((call c p).accounts) ≡ true
unfolding call
call-degraded (register symbol) p d = register-degraded symbol p d
call-degraded (fill f) p d = on_fill-degraded f p d
call-degraded (mark m now) p d = on_mark-degraded m now p d
call-degraded (balance_update u now) p d = on_balance-degraded u now p d

pub calls-degraded :
    (cs : List LedgerCall) (p : PortfolioAccountant)
    → degraded p.accounts ≡ true
    → degraded ((calls cs p).accounts) ≡ true
calls-degraded [] p d = d
calls-degraded (c ∷ cs) p d = calls-degraded cs (call c p) (call-degraded c p d)

account_fill-overflow :
    (error : AccountingError) (o : FillOutcome) (symbol : Symbol) (b : PositionAccount)
    (p : PortfolioAccountant) {a : PositionAccount}
    → find symbol p.accounts ≡ some a
    → error ≡ arithmetic_overflow
    → degraded ((account_fill error o symbol b p).accounts) ≡ true
unfolding account_fill fault
account_fill-overflow error o symbol b p {a} f h =
    rw h (update_faulted symbol (fault b) p.accounts {a = a} f refl)

overflow-degraded :
    (f : FillEvent) (p : PortfolioAccountant)
    → (on_fill f p).0.error ≡ arithmetic_overflow
    → degraded ((on_fill f p).1.accounts) ≡ true
unfolding on_fill
overflow-degraded f p h = elim (Option-cases (find f.symbol p.accounts)) [
  | inl e ↦ absurd (ground (arith, e))
  | inr (a, e) ↦ rw e (account_fill-overflow _ _ f.symbol _ p {a = a} e (ground (arith, e)))
]

pub degraded_invalid :
    (now : Nanos) (p : PortfolioAccountant)
    → degraded p.accounts ≡ true
    → (portfolio_snapshot now p).valid ≡ false
degraded_invalid now p d = elim (Bool-cases (portfolio_snapshot now p).valid) [
  | inl v ↦ absurd (ground (arith, (portfolio_snapshot-IsExact now p v).sound))
  | inr v ↦ v
]

-- After a fill that overflows, the snapshot is invalid, whatever is registered, filled, marked or
-- updated afterwards and whatever the time is.
pub overflow_sticks :
    (f : FillEvent) (p : PortfolioAccountant) (cs : List LedgerCall) (now : Nanos)
    → (on_fill f p).0.error ≡ arithmetic_overflow
    → (portfolio_snapshot now (calls cs (on_fill f p).1)).valid ≡ false
overflow_sticks f p cs now h =
    degraded_invalid now (calls cs (on_fill f p).1)
      (calls-degraded cs (on_fill f p).1 (overflow-degraded f p h))
