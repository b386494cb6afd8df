-- ===== src/Portfolio/SeenTrades.antt =====
-- The ring of trade ids in include/mm/portfolio/PositionAccount.hpp.
use crypto_mm_engine.Prelude.{
  ℕ, zero, suc, ◌+◌, ◌-◌, ◌%◌, ◌≤◌, ◌<◌, ◌≡◌, ◌≢◌, refl, Bool, true, false, ◌||◌, List, [], ◌∷◌,
  arith, ltb, ◌==◌, if◌then◌else◌, length, set, take, get_elem?, some, replicate, length-set, ◌∙◌,
  Bool-cases, inl, inr,
}
use crypto_mm_engine.Common.Types.{TradeId, same_text}
use text.Mathlib.TextPositions.{eq_refl}

abbrev pub capacity : ℕ
capacity = 64

pub record SeenTrades : Type 0 where
  pub ids : List TradeId
  pub count : ℕ
  pub next : ℕ
  pub overflowed : Bool

abbrev pub no_trades : SeenTrades
no_trades = record { ids = replicate capacity ""; count = 0; next = 0; overflowed = false }

-- The loop over the first `count` entries.
unfoldable pub any_same : TradeId → List TradeId → Bool
any_same id [] = false
any_same id (x ∷ xs) = same_text x id || any_same id xs

unfoldable pub contains : TradeId → SeenTrades → Bool
contains id s = any_same id (take s.count s.ids)

unfoldable pub insert : TradeId → SeenTrades → Bool × SeenTrades
insert id s = if contains id s then (false, s) else (
  true,
  record {
    ids = set s.ids s.next id;
    count = if ltb s.count capacity then s.count + 1 else s.count;
    next = (s.next + 1) % capacity;
    overflowed = if s.count == capacity then true else s.overflowed;
  },
)

-- The ring is full, or it is filled from the front up to `next`.
pub record IsRing (s : SeenTrades) : Type 0 where
  pub stored : length s.ids ≡ capacity
  pub bounded : s.next < capacity
  pub filling : s.count < capacity → s.next ≡ s.count
  pub full : s.count ≤ capacity

pub insert-IsRing : (id : TradeId) (s : SeenTrades) → IsRing s → IsRing (insert id s).1
unfolding insert
insert-IsRing id s r = ground (arith, length-set s.ids s.next id, r.filling)

pub no_trades-IsRing : IsRing no_trades
no_trades-IsRing = ground arith

any_same_at :
    (id : TradeId) (n i : ℕ) (xs : List TradeId)
    → i < n
    → get_elem? xs i ≡ some id
    → any_same id (take n xs) ≡ true
unfolding any_same
any_same_at id zero i xs h e = absurd (omega arith)
any_same_at id (suc n) i [] h e = cc
any_same_at id (suc n) zero (x ∷ xs) h e = ground (arith, eq_refl id)
any_same_at id (suc n) (suc i) (x ∷ xs) h e = ground (arith, any_same_at id n i xs)

get_elem?-set_here :
    (xs : List TradeId) (i : ℕ) (id : TradeId) → i < length xs → get_elem? (set xs i id) i ≡ some id
get_elem?-set_here [] i id h = absurd (omega arith)
get_elem?-set_here (x ∷ xs) zero id h = refl
get_elem?-set_here (x ∷ xs) (suc i) id h = get_elem?-set_here xs i id (omega arith)

get_elem?-set_away :
    (xs : List TradeId) (i j : ℕ) (id : TradeId)
    → i ≢ j
    → get_elem? (set xs i id) j ≡ get_elem? xs j
get_elem?-set_away [] i j id h = refl
get_elem?-set_away (x ∷ xs) zero zero id h = absurd (h refl)
get_elem?-set_away (x ∷ xs) zero (suc j) id h = refl
get_elem?-set_away (x ∷ xs) (suc i) zero id h = refl
get_elem?-set_away (x ∷ xs) (suc i) (suc j) id h = get_elem?-set_away xs i j id (omega arith)

-- The id stands in slot `i`, and at most `age` ids have been written since.
record IsHeld (id : TradeId) (i age : ℕ) (s : SeenTrades) : Type 0 where
  ring : IsRing s
  used : i < s.count
  here : get_elem? s.ids i ≡ some id
  young : (s.next + 63 - i) % 64 ≤ age

held_contains :
    (id : TradeId) (i age : ℕ) (s : SeenTrades) → IsHeld id i age s → contains id s ≡ true
unfolding contains
held_contains id i age s h = any_same_at id s.count i s.ids h.used h.here

insert-IsHeld :
    (id other : TradeId) (i age : ℕ) (s : SeenTrades)
    → age < 63
    → IsHeld id i age s
    → IsHeld id i (age + 1) (insert other s).1
unfolding insert
insert-IsHeld id other i age s a h = elim (Bool-cases (contains other s)) [
  | inl old ↦
      rw old
        (record { ring = h.ring; used = h.used; here = h.here; young = omega (arith, h.young) })
  | inr new ↦ record {
    ring = insert-IsRing other s h.ring;
    used = ground (arith, h.used);
    here = rw new (
        get_elem?-set_away s.ids s.next i other
          (omega (arith, h.young, h.used, h.ring.full, h.ring.bounded))
        ∙ h.here);
    young = rw new (omega (arith, h.young, h.used, h.ring.full, h.ring.bounded));
  }
]

insert-IsHeld_self :
    (id : TradeId) (s : SeenTrades)
    → IsRing s
    → contains id s ≡ false
    → IsHeld id s.next 0 (insert id s).1
unfolding insert
insert-IsHeld_self id s r new = record {
  ring = insert-IsRing id s r;
  used = ground (arith, r.filling);
  here = rw new (get_elem?-set_here s.ids s.next id (omega (arith, r.stored, r.bounded)));
  young = rw new (omega (arith, r.bounded));
}

pub insert_all : List TradeId → SeenTrades → SeenTrades
insert_all [] s = s
insert_all (id ∷ ids) s = insert_all ids (insert id s).1

insert_all_held :
    (id : TradeId) (i age : ℕ) (others : List TradeId) (s : SeenTrades)
    → age + length others ≤ 63
    → IsHeld id i age s
    → contains id (insert_all others s) ≡ true
unfolding insert_all
insert_all_held id i age [] s a h = held_contains id i age s h
insert_all_held id i age (x ∷ xs) s a h =
    insert_all_held id i (age + 1) xs (insert x s).1 (omega arith)
      (insert-IsHeld id x i age s (omega arith) h)

-- The ring remembers an id through the next 63 insertions, whatever they insert.
pub contains-insert_all :
    (id : TradeId) (others : List TradeId) (s : SeenTrades)
    → IsRing s
    → contains id s ≡ false
    → length others ≤ 63
    → contains id (insert_all others (insert id s).1) ≡ true
contains-insert_all id others s r new few =
    insert_all_held id s.next 0 others (insert id s).1 (omega arith) (insert-IsHeld_self id s r new)
