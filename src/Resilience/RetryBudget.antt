-- ===== src/Resilience/RetryBudget.antt =====
-- `RetryBudget` of app/core/resilience/retry_budget.py. The deque is a list, oldest first.
pub mod Window
use codex_lb_mod.Base.{
  All, Bool, List, [], arith, false, if◌then◌else◌, leb, length, ltb, refl, select, true, ℕ, ◌++◌,
  ◌+◌, ◌-◌, ◌∷◌, ◌≡◌, ◌≤◌,
}

pub record RetryBudget : Type 0 where
  pub max_retries : ℕ
  pub window : ℕ
  pub retry_timestamps : List ℕ

-- `timestamp >= now - window`
abbrev pub is_recent : ℕ → ℕ → ℕ → Bool
is_recent now window timestamp = leb now (timestamp + window)

-- The loop that pops the old timestamps off the left end.
unfoldable pub drop_old : ℕ → ℕ → List ℕ → List ℕ
drop_old now window [] = []
drop_old now window (t ∷ ts) =
    let rest = drop_old now window ts in if is_recent now window t then t ∷ ts else rest

unfoldable pub try_acquire : ℕ → RetryBudget → RetryBudget × Bool
unfolding drop_old
try_acquire now b =
    let kept = drop_old now b.window b.retry_timestamps in
    if leb b.max_retries (length kept)
    then (record b { retry_timestamps = kept }, false)
    else (record b { retry_timestamps = kept ++ now ∷ [] }, true)

unfoldable pub remaining : ℕ → RetryBudget → ℕ
remaining now b = b.max_retries - length (select (is_recent now b.window) b.retry_timestamps)

-- Oldest first, and none later than a time.
abbrev pub IsOrdered : ℕ → List ℕ → Type 0
IsOrdered now [] = Unit {0}
IsOrdered now (t ∷ ts) = All (λ u. t ≤ u) ts × (t ≤ now) × IsOrdered now ts

select_recent_lem :
    (now window t : ℕ) (ts : List ℕ)
    → All (λ u. t ≤ u) ts
    → is_recent now window t ≡ true
    → select (is_recent now window) ts ≡ ts
select_recent_lem now window t [] h r = refl
select_recent_lem now window t (u ∷ us) h r =
    ground (arith, select_recent_lem now window t us h.1 r)

-- On an ordered deque the loop that stops at the first recent timestamp drops every old one.
pub drop_old-select :
    (now window last : ℕ) (ts : List ℕ)
    → IsOrdered last ts
    → drop_old now window ts ≡ select (is_recent now window) ts
unfolding drop_old
drop_old-select now window last [] h = refl
drop_old-select now window last (t ∷ ts) h =
    ground (arith, select_recent_lem now window t ts h.0, drop_old-select now window last ts h.2)

-- A retry is granted exactly when `remaining` is positive.
pub try_acquire-remaining :
    (now last : ℕ) (b : RetryBudget)
    → IsOrdered last b.retry_timestamps
    → (try_acquire now b).1 ≡ ltb 0 (remaining now b)
unfolding try_acquire remaining
try_acquire-remaining now last b h =
    ground (arith, drop_old-select now b.window last b.retry_timestamps h)
