-- ===== src/Resilience/RetryBudget/Window.antt =====
-- The budget over a run of requests (app/core/resilience/retry_budget.py).
use mathlib.Core.List.{append-nil, append_assoc}
use codex_lb_mod.Base.Member.{length-append}
use codex_lb_mod.Base.{
  All, Bool, Bool-cases, List, [], ap, arith, false, if◌then◌else◌, inl, inr, length, refl, select,
  true, ℕ, ◌++◌, ◌<◌, ◌∷◌, ◌≡◌, ◌≤◌, ◌⊎◌,
}
use codex_lb_mod.Resilience.RetryBudget.{
  IsOrdered, RetryBudget, drop_old-select, is_recent, try_acquire,
}

-- The times of the retries that a run of requests is granted.
unfoldable pub grants : List ℕ → RetryBudget → List ℕ
grants [] b = []
grants (t ∷ ts) b =
    let rest = grants ts (try_acquire t b).0 in if (try_acquire t b).1 then t ∷ rest else rest

-- The clock does not run backwards, from a first time to a last one.
abbrev Clocked : ℕ → List ℕ → ℕ → Type 0
Clocked first [] last = first ≤ last
Clocked first (t ∷ ts) last = (first ≤ t) × Clocked t ts last

Clocked-le : (first : ℕ) (ts : List ℕ) (last : ℕ) → Clocked first ts last → first ≤ last
Clocked-le first [] last c = c
Clocked-le first (t ∷ ts) last c = omega (arith, Clocked-le t ts last c.1)

module _ (p : ℕ → Bool) where
  select-append : (xs ys : List ℕ) → select p (xs ++ ys) ≡ select p xs ++ select p ys
  select-append [] ys = refl
  select-append (x ∷ xs) ys = ground (arith, select-append xs ys)

  length-select-le : (xs : List ℕ) → length (select p xs) ≤ length xs
  length-select-le [] = omega arith
  length-select-le (x ∷ xs) = ground (arith, length-select-le xs)

  All-select : (t : ℕ) (ts : List ℕ) → All (λ u. t ≤ u) ts → All (λ u. t ≤ u) (select p ts)
  All-select t [] h = tt
  All-select t (u ∷ us) h = ground (arith, All-select t us h.1)

  select-IsOrdered : (last : ℕ) (ts : List ℕ) → IsOrdered last ts → IsOrdered last (select p ts)
  select-IsOrdered last [] h = tt
  select-IsOrdered last (t ∷ ts) h = elim (Bool-cases (p t)) [
    | inl k ↦ rw k (All-select t ts h.0, h.1, select-IsOrdered last ts h.2)
    | inr k ↦ rw k (select-IsOrdered last ts h.2)
  ]

All-append : (t u : ℕ) (ts : List ℕ) → t ≤ u → All (λ v. t ≤ v) ts → All (λ v. t ≤ v) (ts ++ u ∷ [])
All-append t u [] h a = (h, tt)
All-append t u (v ∷ vs) h a = (a.0, All-append t u vs h a.1)

append-IsOrdered :
    (last now : ℕ) (ts : List ℕ) → last ≤ now → IsOrdered last ts → IsOrdered now (ts ++ now ∷ [])
append-IsOrdered last now [] h o = (tt, omega arith, tt)
append-IsOrdered last now (t ∷ ts) h o =
    (All-append t now ts (omega arith) o.0, omega arith, append-IsOrdered last now ts h o.2)

weaken-IsOrdered : (last now : ℕ) (ts : List ℕ) → last ≤ now → IsOrdered last ts → IsOrdered now ts
weaken-IsOrdered last now [] h o = tt
weaken-IsOrdered last now (t ∷ ts) h o = (o.0, omega arith, weaken-IsOrdered last now ts h o.2)

-- What is recent at a later time was recent before.
select-select :
    (now later window : ℕ) (ts : List ℕ)
    → now ≤ later
    → select (is_recent later window) (select (is_recent now window) ts)
      ≡ select (is_recent later window) ts
select-select now later window [] h = refl
select-select now later window (t ∷ ts) h = ground (arith, select-select now later window ts h)

-- One request on an ordered deque, by its two outcomes.
try_acquire-cases :
    (now last : ℕ) (b : RetryBudget)
    → IsOrdered last b.retry_timestamps
    → (length (select (is_recent now b.window) b.retry_timestamps) < b.max_retries)
        × (try_acquire now b ≡ (
          record b {
            retry_timestamps = select (is_recent now b.window) b.retry_timestamps ++ now ∷ [];
          },
          true,
        ))
      ⊎ (b.max_retries ≤ length (select (is_recent now b.window) b.retry_timestamps))
        × (try_acquire now b ≡ (
          record b { retry_timestamps = select (is_recent now b.window) b.retry_timestamps },
          false,
        ))
unfolding try_acquire
try_acquire-cases now last b o =
    ground (arith, drop_old-select now b.window last b.retry_timestamps o)

abbrev with_stamps : List ℕ → RetryBudget → RetryBudget
with_stamps ds b = record b { retry_timestamps = ds }

abbrev kept : ℕ → RetryBudget → List ℕ
kept t b = select (is_recent t b.window) b.retry_timestamps

module _ (t : ℕ) (ts : List ℕ) (b b' : RetryBudget) where
  grants-granted : try_acquire t b ≡ (b', true) → grants (t ∷ ts) b ≡ t ∷ grants ts b'
  unfolding grants
  grants-granted e = rw e

  grants-refused : try_acquire t b ≡ (b', false) → grants (t ∷ ts) b ≡ grants ts b'
  unfolding grants
  grants-refused e = rw e

-- The old timestamps at an earlier time do not count later.
select_kept :
    (t later window : ℕ) (ds gs : List ℕ)
    → t ≤ later
    → select (is_recent later window) (ds ++ gs)
      ≡ select (is_recent later window) (select (is_recent t window) ds ++ gs)
select_kept t later window ds gs h = rw (
  select-append (is_recent later window) ds gs,
  select-append (is_recent later window) (select (is_recent t window) ds) gs,
  select-select t later window ds h,
)

window_count :
    (ts : List ℕ) (first last : ℕ) (b : RetryBudget)
    → IsOrdered first b.retry_timestamps
    → length b.retry_timestamps ≤ b.max_retries
    → Clocked first ts last
    → length (select (is_recent last b.window) (b.retry_timestamps ++ grants ts b)) ≤ b.max_retries
unfolding grants
window_count [] first last b o h c = omega (
  arith,
  length-select-le (is_recent last b.window) (b.retry_timestamps ++ []),
  ap (length {0} {A = ℕ}) (append-nil b.retry_timestamps),
)
window_count (t ∷ ts) first last b o h c = elim (try_acquire-cases t first b o) [
  | inl (room, e) ↦
      rw
        (
          grants-granted t ts b (with_stamps (kept t b ++ t ∷ []) b) e,
          select_kept t last b.window b.retry_timestamps
              (t ∷ grants ts (with_stamps (kept t b ++ t ∷ []) b)) (Clocked-le t ts last c.1),
        )
        (rw append_assoc at (
          window_count ts t last (with_stamps (kept t b ++ t ∷ []) b)
            (append-IsOrdered first t (kept t b) c.0
              (select-IsOrdered (is_recent t b.window) first b.retry_timestamps o))
            (omega (arith, length-append (kept t b) (t ∷ []))) c.1))
  | inr (full, e) ↦
      rw
        (
          grants-refused t ts b (with_stamps (kept t b) b) e,
          select_kept t last b.window b.retry_timestamps (grants ts (with_stamps (kept t b) b))
              (Clocked-le t ts last c.1),
        )
        (window_count ts t last (with_stamps (kept t b) b)
          (weaken-IsOrdered first t (kept t b) c.0
            (select-IsOrdered (is_recent t b.window) first b.retry_timestamps o))
          (omega (arith, length-select-le (is_recent t b.window) b.retry_timestamps)) c.1)
]

-- Over any run of requests on a clock that does not run backwards, a new budget grants at most
-- `max_retries` retries within the window that ends with the run.
pub grants_bounded :
    (max_retries window first last : ℕ) (ts : List ℕ)
    → Clocked first ts last
    → length (
        select (is_recent last window) (
          grants ts (record { max_retries = max_retries; window = window; retry_timestamps = [] })))
      ≤ max_retries
grants_bounded max_retries window first last ts c =
    window_count ts first last
      (record { max_retries = max_retries; window = window; retry_timestamps = [] }) tt
      (omega arith) c
