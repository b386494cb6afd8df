-- ===== src/Portfolio/Accountant/Added.antt =====
-- What one account adds to the totals of src/portfolio/PortfolioAccountant.cpp, exactly.
use crypto_mm_engine.Prelude.{
  ◌≡◌, true, false, some, arith, sym, ◌∙◌, Option-cases, Bool-cases, ap, subst, inl, inr,
}
use crypto_mm_engine.Prelude.Int.{ℤ, pos, ◌+ℤ◌, ◌*ℤ◌, ◌/ℤ◌}
use crypto_mm_engine.Common.Fixed.{
  checked_add, checked_notional_of, saturating_abs, scale, is_zero, is_positive,
}
use crypto_mm_engine.Common.Fixed.Checked.{narrow-some, checked_add-some}
use crypto_mm_engine.Portfolio.Account.{
  PositionAccount, abs_notional, checked_gross_exposure, mark_or_average,
}
use crypto_mm_engine.Portfolio.Accountant.Totals.{
  PortfolioSnapshot, count_position, add_net, add_pnl, add_account,
}

-- The worth of the absolute position at its mark, or at its average price without one. The absolute
-- value is the one of the code, which saturates at the least 64-bit value.
abbrev pub exposure : PositionAccount → ℤ
exposure a = saturating_abs ((mark_or_average a *ℤ saturating_abs a.position) /ℤ scale)

-- Only a flat account goes without a price.
abbrev pub IsPriced : PositionAccount → Type 0
IsPriced a = is_zero a.position ≡ false → is_positive (mark_or_average a) ≡ true

flat-exposure :
    (a : PositionAccount) → is_zero a.position ≡ true → saturating_abs (pos 0) ≡ exposure a
unfolding saturating_abs ◌*ℤ◌ ◌/ℤ◌
flat-exposure a z = let none_held : a.position ≡ pos 0 = ground arith in rw none_held (ground arith)

-- What is counted for an account is its exact exposure, and it could be computed.
checked_gross_exposure-some :
    (a : PositionAccount) {g : ℤ}
    → checked_gross_exposure a ≡ some g
    → IsPriced a × (saturating_abs g ≡ exposure a)
unfolding checked_gross_exposure abs_notional checked_notional_of
checked_gross_exposure-some a {g} e = elim (Bool-cases (is_zero a.position)) [
  | inl z ↦ (let flat = flat-exposure a z in ground (arith, z, flat))
  | inr z ↦ elim (Bool-cases (is_positive (mark_or_average a))) [
    | inl p ↦
        (let exact : g ≡ (mark_or_average a *ℤ saturating_abs a.position) /ℤ scale =
            (narrow-some ((mark_or_average a *ℤ saturating_abs a.position) /ℤ scale)
              (ground (arith, z, p))).0 in
          (λ _. p, ap (λ x. saturating_abs x) exact))
    | inr p ↦ absurd (ground (arith, z, p))
  ]
]

-- What adding an account does to the totals if the snapshot stays valid.
pub record IsAdded (a : PositionAccount) (s t : PortfolioSnapshot) : Type 0 where
  pub valid : s.valid ≡ true
  pub priced : IsPriced a
  pub gross : t.gross_notional ≡ s.gross_notional +ℤ exposure a
  pub realized : t.realized ≡ s.realized +ℤ a.realized
  pub fees : t.fees ≡ s.fees +ℤ a.fees
  pub funding : t.funding ≡ s.funding
  pub sound : a.faulted ≡ false
  pub determinate :
      t.pnl_determinate ≡ true
      → (s.pnl_determinate ≡ true)
        × (a.unrealized_valid ≡ true)
        × (t.unrealized ≡ s.unrealized +ℤ a.unrealized)

record SameTotals (s t : PortfolioSnapshot) : Type 0 where
  pub valid : t.valid ≡ true → s.valid ≡ true
  pub gross : t.gross_notional ≡ s.gross_notional
  pub realized : t.realized ≡ s.realized
  pub fees : t.fees ≡ s.fees
  pub funding : t.funding ≡ s.funding
  pub unrealized : t.unrealized ≡ s.unrealized
  pub determinate : t.pnl_determinate ≡ s.pnl_determinate

add_net-SameTotals : (a : PositionAccount) (s : PortfolioSnapshot) → SameTotals s (add_net a s)
unfolding add_net
add_net-SameTotals a s = elim (Option-cases (checked_notional_of (mark_or_average a) a.position)) [
  | inl e ↦ rw e (ground arith)
  | inr (v, e) ↦ rw e (elim (Option-cases (checked_add s.net_notional v)) [
    | inl f ↦ rw f (ground arith)
    | inr (w, f) ↦ rw f (ground arith)
  ])
]

record IsPnlAdded (a : PositionAccount) (s t : PortfolioSnapshot) : Type 0 where
  pub valid : s.valid ≡ true
  pub gross : t.gross_notional ≡ s.gross_notional
  pub realized : t.realized ≡ s.realized +ℤ a.realized
  pub fees : t.fees ≡ s.fees +ℤ a.fees
  pub funding : t.funding ≡ s.funding
  pub determinate :
      t.pnl_determinate ≡ true
      → (s.pnl_determinate ≡ true)
        × (a.unrealized_valid ≡ true)
        × (t.unrealized ≡ s.unrealized +ℤ a.unrealized)

add_pnl-IsPnlAdded :
    (a : PositionAccount) (s : PortfolioSnapshot)
    → (add_pnl a s).valid ≡ true
    → IsPnlAdded a s (add_pnl a s)
unfolding add_pnl
add_pnl-IsPnlAdded a s v = elim (Option-cases (checked_add s.realized a.realized)) [
  | inl e ↦ absurd (ground (arith, e))
  | inr (r, e) ↦ elim (Option-cases (checked_add s.fees a.fees)) [
    | inl f ↦ absurd (ground (arith, e, f))
    | inr (q, f) ↦ elim (Option-cases (checked_add s.unrealized a.unrealized)) [
      | inl g ↦ ground (
        arith,
        e,
        f,
        g,
        checked_add-some s.realized a.realized e,
        checked_add-some s.fees a.fees f,
      )
      | inr (u, g) ↦ ground (
        arith,
        e,
        f,
        g,
        checked_add-some s.realized a.realized e,
        checked_add-some s.fees a.fees f,
        checked_add-some s.unrealized a.unrealized g,
      )
    ]
  ]
]

count_position-SameTotals :
    (a : PositionAccount) (s : PortfolioSnapshot) → SameTotals s (count_position a s)
unfolding count_position
count_position-SameTotals a s = ground arith

pub add_account-IsAdded :
    (a : PositionAccount) (s : PortfolioSnapshot)
    → (add_account a s).valid ≡ true
    → IsAdded a s (add_account a s)
unfolding add_account
add_account-IsAdded a s v =
    let s₁ = count_position a s in
    let same₁ = count_position-SameTotals a s in
    elim (Option-cases (checked_gross_exposure a)) [
      | inl e ↦ absurd (ground (arith, e))
      | inr (g, e) ↦ elim (Option-cases (checked_add s₁.gross_notional (saturating_abs g))) [
        | inl f ↦ absurd (ground (arith, e, f))
        | inr (total, f) ↦
            (let s₂ = record s₁ { gross_notional = total } in
              let same₂ = add_net-SameTotals a s₂ in
              let sound : a.faulted ≡ false = ground (arith, e, f) in
              let exact = checked_add-some s₁.gross_notional (saturating_abs g) f in
              let whole : (add_pnl a (add_net a s₂)).valid ≡ true = ground (arith, e, f, sound) in
              let added = add_pnl-IsPnlAdded a (add_net a s₂) whole in
              let outcome : add_account a s ≡ add_pnl a (add_net a s₂) =
                ground (arith, e, f, sound) in
              let counted = checked_gross_exposure-some a e in
              let worth : s₂.gross_notional ≡ s₁.gross_notional +ℤ exposure a =
                exact.0 ∙ ap (λ (x : ℤ). s₁.gross_notional +ℤ x) counted.1 in
              subst (IsAdded a s) (sym outcome) (record {
                valid = same₁.valid (same₂.valid added.valid);
                priced = counted.0;
                gross =
                    added.gross ∙ same₂.gross ∙ worth ∙ ap (λ (x : ℤ). x +ℤ exposure a) same₁.gross;
                realized = ground (arith, added, same₁, same₂);
                fees = ground (arith, added, same₁, same₂);
                funding = ground (arith, added, same₁, same₂);
                sound = sound;
                determinate = ground (arith, added, same₁, same₂);
              }))
      ]
    ]
