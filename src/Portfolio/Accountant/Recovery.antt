-- ===== src/Portfolio/Accountant/Recovery.antt =====
-- Saving and restoring the ledger of src/portfolio/PortfolioAccountant.cpp.
use crypto_mm_engine.Prelude.{
  ℕ, ◌≡◌, refl, true, false, List, [], ◌∷◌, map, leb, ltb, length, arith, All, suc, ap, Bool-cases,
  inl, inr,
}
use crypto_mm_engine.Prelude.Int.{pos}
use crypto_mm_engine.Common.Fixed.{is_zero}
use crypto_mm_engine.Portfolio.Types.{no_error}
use crypto_mm_engine.Portfolio.Account.{PositionAccount, save, restore}
use crypto_mm_engine.Portfolio.Effect.{IsAccount}
use crypto_mm_engine.Portfolio.Accountant.{
  PortfolioAccountant, new_account, save_all, restore_accounts, restore_all,
}

-- What a recovery is to give back of an account: all of it but the mark, which is forgotten, so that
-- only a flat account has a valid unrealized PnL.
abbrev pub recovered : PositionAccount → PositionAccount
recovered a = record a {
  unrealized = pos 0;
  last_mark = pos 0;
  unrealized_valid = is_zero a.position;
}

restore-save : (a b : PositionAccount) → IsAccount a → restore (save a) b ≡ (no_error, recovered a)
unfolding save restore
restore-save a b v = elim (Bool-cases (is_zero a.position)) [
  | inl z ↦ rw (v.fees_nonneg, z, v.basis, z) refl
  | inr z ↦ rw (v.fees_nonneg, z, v.basis, z) refl
]

length-save : (as_ : List PositionAccount) → length (map save as_) ≡ length as_
length-save [] = refl
length-save (a ∷ as_) = ap suc (length-save as_)

restore_accounts-save :
    (as_ : List PositionAccount)
    → All IsAccount as_
    → restore_accounts (map save as_) ≡ (no_error, map recovered as_)
unfolding restore_accounts
restore_accounts-save [] v = refl
restore_accounts-save (a ∷ as_) (v, vs) =
    rw (restore-save a (new_account "") v, restore_accounts-save as_ vs) refl

-- What `save_all` takes of a ledger of valid accounts that fits, an empty ledger restores without an
-- error: its sequence and its balances are those that were saved, its accounts are the saved ones,
-- with every field but the mark and the unrealized PnL as it was, and its other fields are its own.
pub restore_all-save_all :
    (p q : PortfolioAccountant) (room : ℕ)
    → All IsAccount p.accounts
    → q.accounts ≡ []
    → leb (length p.accounts) q.config.max_symbols ≡ true
    → restore_all (save_all p) room q ≡ (
      no_error,
      record q {
        accounts = map recovered p.accounts;
        balances = p.balances;
        balance_capacity = room;
        sequence = p.sequence;
      },
    )
unfolding restore_all save_all
restore_all-save_all p q room v empty fits =
    let fit : ltb q.config.max_symbols (length (map save p.accounts)) ≡ false =
      rw (length-save p.accounts) (ground (arith, fits)) in
    rw (empty, fit, restore_accounts-save p.accounts v) refl
