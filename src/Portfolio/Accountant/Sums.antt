-- ===== src/Portfolio/Accountant/Sums.antt =====
-- The totals of src/portfolio/PortfolioAccountant.cpp and the exact sums over the accounts.
use crypto_mm_engine.Prelude.{
  ◌≡◌, refl, true, false, some, List, [], ◌∷◌, arith, All, sym, ◌∙◌, Option-cases, subst,
  >>=-eq-some, inl, inr,
}
use crypto_mm_engine.Prelude.Int.{ℤ, pos, ◌+ℤ◌, ◌-ℤ◌, int_laws}
use crypto_mm_engine.Common.Types.{Nanos}
use crypto_mm_engine.Common.Fixed.{checked_add}
use crypto_mm_engine.Common.Fixed.Checked.{checked_add-some, checked_sub-some}
use crypto_mm_engine.Portfolio.Types.{PnlBreakdown, checked_net}
use crypto_mm_engine.Portfolio.Account.{PositionAccount}
use crypto_mm_engine.Portfolio.Accountant.{PortfolioAccountant, degraded}
use crypto_mm_engine.Portfolio.Accountant.Totals.{
  PortfolioSnapshot, opening, add_account, add_accounts, add_total, portfolio_snapshot,
}
use crypto_mm_engine.Portfolio.Accountant.Added.{exposure, IsPriced, add_account-IsAdded}

-- The exact sum of one value of each account.
abbrev pub sum_of : (PositionAccount → ℤ) → List PositionAccount → ℤ
sum_of f [] = pos 0
sum_of f (a ∷ as_) = f a +ℤ sum_of f as_

-- What adding a list of accounts does to the totals if the snapshot stays valid.
record AreAdded (as_ : List PositionAccount) (s t : PortfolioSnapshot) : Type 0 where
  pub valid : s.valid ≡ true
  pub priced : All IsPriced as_
  pub gross : t.gross_notional ≡ s.gross_notional +ℤ sum_of exposure as_
  pub realized : t.realized ≡ s.realized +ℤ sum_of (λ a. a.realized) as_
  pub fees : t.fees ≡ s.fees +ℤ sum_of (λ a. a.fees) as_
  pub funding : t.funding ≡ s.funding
  pub sound : degraded as_ ≡ false
  pub determinate :
      t.pnl_determinate ≡ true
      → (s.pnl_determinate ≡ true)
        × All (λ a. a.unrealized_valid ≡ true) as_
        × (t.unrealized ≡ s.unrealized +ℤ sum_of (λ a. a.unrealized) as_)

+ℤ_zero : (x : ℤ) → x ≡ x +ℤ pos 0
+ℤ_zero x = omega int_laws

regroup : (x t y s r : ℤ) → t ≡ s +ℤ r → s ≡ x +ℤ y → t ≡ x +ℤ (y +ℤ r)
regroup x t y s r h k = rw (h, k) (omega int_laws)

add_accounts-AreAdded :
    (as_ : List PositionAccount) (s : PortfolioSnapshot)
    → (add_accounts as_ s).valid ≡ true
    → AreAdded as_ s (add_accounts as_ s)
unfolding add_accounts degraded
add_accounts-AreAdded [] s v = record {
  valid = v;
  priced = tt;
  gross = +ℤ_zero _;
  realized = +ℤ_zero _;
  fees = +ℤ_zero _;
  funding = refl;
  sound = refl;
  determinate = λ d. (d, tt, +ℤ_zero _);
}
add_accounts-AreAdded (a ∷ as_) s v =
    let rest = add_accounts-AreAdded as_ (add_account a s) v in
    let first = add_account-IsAdded a s rest.valid in
    record {
      valid = first.valid;
      priced = (first.priced, rest.priced);
      gross = regroup _ _ (exposure a) _ _ rest.gross first.gross;
      realized = regroup _ _ a.realized _ _ rest.realized first.realized;
      fees = regroup _ _ a.fees _ _ rest.fees first.fees;
      funding = rest.funding ∙ first.funding;
      sound = rw (first.sound) rest.sound;
      determinate = λ d.
          (let later = rest.determinate d in
            let now = first.determinate later.0 in
            (now.0, (now.1, later.1), regroup _ _ a.unrealized _ _ later.2 now.2));
    }

-- The totals of a snapshot against the accounts.
pub record IsExact (as_ : List PositionAccount) (s : PortfolioSnapshot) : Type 0 where
  pub sound : degraded as_ ≡ false
  pub priced : All IsPriced as_
  pub gross : s.gross_notional ≡ sum_of exposure as_
  pub realized : s.realized ≡ sum_of (λ a. a.realized) as_
  pub fees : s.fees ≡ sum_of (λ a. a.fees) as_
  pub determinate :
      s.pnl_determinate ≡ true
      → All (λ a. a.unrealized_valid ≡ true) as_
        × (s.unrealized ≡ sum_of (λ a. a.unrealized) as_)
        × (s.net_pnl
            ≡ sum_of (λ a. a.realized) as_
              +ℤ sum_of (λ a. a.unrealized) as_
              -ℤ sum_of (λ a. a.fees) as_)

checked_net-some :
    (b : PnlBreakdown) {n : ℤ}
    → checked_net b ≡ some n
    → n ≡ b.realized +ℤ b.unrealized +ℤ b.funding -ℤ b.fees
unfolding checked_net
checked_net-some b {n} h =
    let (g, e, h₁) = >>=-eq-some (checked_add b.realized b.unrealized) _ h in
    let (t, f, h₂) = >>=-eq-some (checked_add g b.funding) _ h₁ in
    let gross = (checked_add-some b.realized b.unrealized e).0 in
    let total = (checked_add-some g b.funding f).0 in
    rw (← gross, ← total) ((checked_sub-some t b.fees h₂).0)

zero-+ℤ : (x : ℤ) → pos 0 +ℤ x ≡ x
zero-+ℤ x = omega int_laws

net_exact :
    (n r u f q sr su sf : ℤ)
    → n ≡ r +ℤ u +ℤ f -ℤ q
    → r ≡ sr
    → u ≡ su
    → f ≡ pos 0
    → q ≡ sf
    → n ≡ sr +ℤ su -ℤ sf
net_exact n r u f q sr su sf h a b c d = rw (h, a, b, c, d) (omega int_laws)

-- A snapshot that is valid is exact: no account is faulted, every account that holds something has a
-- positive price, and gross exposure, realized PnL and fees are the sums over all accounts. If its PnL is determinate, every account has a valid mark, and
-- unrealized and net PnL are exact as well.
pub portfolio_snapshot-IsExact :
    (now : Nanos) (p : PortfolioAccountant)
    → (portfolio_snapshot now p).valid ≡ true
    → IsExact p.accounts (portfolio_snapshot now p)
unfolding portfolio_snapshot add_total
portfolio_snapshot-IsExact now p v =
    let t = add_accounts p.accounts (opening now p) in
    let b : PnlBreakdown = record {
      realized = t.realized;
      unrealized = t.unrealized;
      fees = t.fees;
      funding = t.funding;
      unrealized_valid = true;
    } in
    elim (Option-cases (checked_net b)) [
      | inl e ↦ absurd (ground (arith, e))
      | inr (net, e) ↦
          (let whole : t.valid ≡ true = ground (arith, e) in
            let added = add_accounts-AreAdded p.accounts (opening now p) whole in
            let realized = added.realized ∙ zero-+ℤ _ in
            let fees = added.fees ∙ zero-+ℤ _ in
            let outcome : portfolio_snapshot now p ≡ record t { net_pnl = net } =
              ground (arith, e) in
            subst (IsExact p.accounts) (sym outcome) (record {
              sound = added.sound;
              priced = added.priced;
              gross = added.gross ∙ zero-+ℤ _;
              realized = realized;
              fees = fees;
              determinate = λ d.
                  (let marked = added.determinate d in
                    let unrealized = marked.2 ∙ zero-+ℤ _ in
                    (
                      marked.1,
                      unrealized,
                      net_exact _ _ _ _ _ _ _ _ (checked_net-some b e) realized unrealized
                          added.funding fees,
                    ));
            }))
    ]
