-- ===== src/Risk/Tally.antt =====
-- The rejections that src/risk/RiskEngine.cpp counts by reason.
use crypto_mm_engine.Prelude.{
  ℕ, zero, suc, ◌<◌, ◌≡◌, refl, true, false, if◌then◌else◌, ltb, ◌==◌, List, [], ◌∷◌, some,
  case_option, length, set, get_elem?, length-set, arith, inl, inr, Bool-cases, ◌∙◌,
}
use crypto_mm_engine.Common.Types.{inc64}
use crypto_mm_engine.Risk.Types.{RiskReason, reason_index, reject}
use crypto_mm_engine.Risk.Decision.{RiskDecision, RiskMetrics}
use crypto_mm_engine.Risk.Engine.{count, tally, record_verdict, record_decision, tally_size}

get_elem?-set_self {ℓ} :
    {A : Type ℓ} (xs : List A) (i : ℕ) (v : A) → i < length xs → get_elem? (set xs i v) i ≡ some v
get_elem?-set_self [] i v h = absurd (omega arith)
get_elem?-set_self (x ∷ xs) zero v h = refl
get_elem?-set_self (x ∷ xs) (suc i) v h = get_elem?-set_self xs i v (omega arith)

get_elem?-set_other {ℓ} :
    {A : Type ℓ} (xs : List A) (i j : ℕ) (v : A)
    → (i == j) ≡ false
    → get_elem? (set xs i v) j ≡ get_elem? xs j
get_elem?-set_other [] i j v h = refl
get_elem?-set_other (x ∷ xs) zero zero v h = absurd (ground arith)
get_elem?-set_other (x ∷ xs) zero (suc j) v h = refl
get_elem?-set_other (x ∷ xs) (suc i) zero v h = refl
get_elem?-set_other (x ∷ xs) (suc i) (suc j) v h = get_elem?-set_other xs i j v (ground arith)

-- The count at an index, zero outside the table.
abbrev count_at : List ℕ → ℕ → ℕ
count_at counts j = if ltb j (length counts) then case_option (get_elem? counts j) 0 (λ n. n) else 0

get_elem?-some {ℓ} :
    {A : Type ℓ} (xs : List A) (i : ℕ) → i < length xs → (a : A) × (get_elem? xs i ≡ some a)
get_elem?-some [] i h = absurd (omega arith)
get_elem?-some (x ∷ xs) zero h = (x, refl)
get_elem?-some (x ∷ xs) (suc i) h = get_elem?-some xs i (omega arith)

count_at-set_self :
    (counts : List ℕ) (i v : ℕ) → i < length counts → count_at (set counts i v) i ≡ v
count_at-set_self counts i v h =
    ground (arith, get_elem?-set_self counts i v h, length-set counts i v)

count_at-set_other :
    (counts : List ℕ) (i j v : ℕ)
    → (i == j) ≡ false
    → count_at (set counts i v) j ≡ count_at counts j
count_at-set_other counts i j v h = rw (get_elem?-set_other counts i j v h, length-set counts i v)

bumped :
    (counts : List ℕ) (i : ℕ)
    → i < length counts
    → case_option (get_elem? counts i) 0 (λ k. inc64 k) ≡ inc64 (count_at counts i)
bumped counts i h = let (a, e) = get_elem?-some counts i h in ground (arith, e)

count_at_guarded :
    (counts : List ℕ) (j : ℕ)
    → count_at counts j ≡ (if ltb j (length counts) then count_at counts j else 0)
count_at_guarded counts j = elim (Bool-cases (ltb j (length counts))) [
  | inl e ↦ rw e refl
  | inr e ↦ rw e refl
]

bump_count :
    (counts : List ℕ) (i j : ℕ)
    → count_at
        (if ltb i (length counts)
          then set counts i (case_option (get_elem? counts i) 0 (λ n. inc64 n))
          else counts)
        j
      ≡ (if ltb j (length counts)
          then (if i == j then inc64 (count_at counts j) else count_at counts j)
          else 0)
bump_count counts i j =
    let v = case_option (get_elem? counts i) 0 (λ n. inc64 n) in
    elim (Bool-cases (ltb i (length counts))) [
      | inl p ↦ elim (Bool-cases (i == j)) [
        | inl e ↦
            (let same : i ≡ j = ground (arith, e) in
              let below : j < length counts = ground (arith, p, same) in
              rw (p, e, same)
                (count_at-set_self counts j (case_option (get_elem? counts j) 0 (λ n. inc64 n))
                    below
                  ∙ bumped counts j below
                  ∙ (let inside : ltb j (length counts) ≡ true = ground arith in rw inside refl)))
        | inr e ↦ rw (p, e) (count_at-set_other counts i j v e ∙ count_at_guarded counts j)
      ]
      | inr p ↦ ground (arith, p)
    ]

tally_count :
    (r q : RiskReason) (counts : List ℕ)
    → count_at (tally r counts) (reason_index q) ≡ (
        if ltb (reason_index q) (length counts)
        then (if reason_index r == reason_index q
            then inc64 (count_at counts (reason_index q))
            else count_at counts (reason_index q))
        else 0)
unfolding tally
tally_count r q counts = bump_count counts (reason_index r) (reason_index q)

-- A rejection raises the count of its reason by one and no other, if the table has a place for the
-- reason; the counts of MaxSessionLoss and EmergencyLoss are zero whatever is recorded.
pub count-record_decision :
    (d : RiskDecision) (r : RiskReason) (m : RiskMetrics)
    → d.verdict ≡ reject
    → length m.rejections_by_reason ≡ tally_size
    → count r (record_decision d m) ≡ (
        if ltb (reason_index r) tally_size
        then (if reason_index d.reason == reason_index r then inc64 (count r m) else count r m)
        else 0)
unfolding count record_decision record_verdict tally
count-record_decision d r m e n = rw (e, ← n) (tally_count d.reason r m.rejections_by_reason)
