-- ===== src/Balancer/Ranking.antt =====
-- The sort keys of app/core/balancer/logic.py, and Python's `min` under a key.
pub mod Least
use Prim.Native.String.{String}
use text.Mathlib.Text.{◌==◌ as str_eq}
use codex_lb_mod.Base.{
  Bool, List, Option, [], false, if◌then◌else◌, ltb, min, none, or_default, some, true, ℕ, ◌*◌, ◌-◌,
  ◌/◌, ◌==◌, ◌||◌, ◌∷◌,
}
use codex_lb_mod.Balancer.State.{AccountState, seconds}

-- Python's order of tuples, for the components that are numbers.
unfoldable pub key_lt : List ℕ → List ℕ → Bool
key_lt [] [] = false
key_lt [] (y ∷ ys) = true
key_lt (x ∷ xs) [] = false
key_lt (x ∷ xs) (y ∷ ys) = if x == y then key_lt xs ys else ltb x y

-- `min(items, key=…)`: the first of the items that no other is below.
module _ {ℓ} {A : Type ℓ} (lt : A → A → Bool) where
  unfoldable pub least_from : A → List A → A
  least_from best [] = best
  least_from best (x ∷ xs) = least_from (if lt x best then x else best) xs

  unfoldable pub least : List A → Option A
  unfolding least_from
  least [] = none
  least (x ∷ xs) = some (least_from x xs)

abbrev pub by_key {ℓ} : {A : Type ℓ} → (A → List ℕ) → A → A → Bool
by_key key a b = key_lt (key a) (key b)

abbrev pub primary_used : AccountState → ℕ
primary_used s = or_default s.used_percent 0

abbrev pub secondary_used : AccountState → ℕ
secondary_used s = or_default s.secondary_used_percent (primary_used s)

abbrev pub last_selected : AccountState → ℕ
last_selected s = or_default s.last_selected_at 0

unfoldable pub usage_sort_key : AccountState → List ℕ
usage_sort_key s = secondary_used s ∷ primary_used s ∷ last_selected s ∷ s.account_id ∷ []

unfoldable pub primary_usage_sort_key : AccountState → List ℕ
primary_usage_sort_key s = primary_used s ∷ secondary_used s ∷ last_selected s ∷ s.account_id ∷ []

unfoldable pub round_robin_sort_key : AccountState → List ℕ
round_robin_sort_key s = last_selected s ∷ s.account_id ∷ []

abbrev unknown_reset_bucket_days : ℕ
unknown_reset_bucket_days = 10000

unfoldable pub reset_bucket_days : ℕ → AccountState → ℕ
reset_bucket_days current s = elim s.secondary_reset_at [
  | none ↦ unknown_reset_bucket_days
  | some t ↦ (t - current) / seconds 86400
]

unfoldable pub reset_first_sort_key : ℕ → AccountState → List ℕ
unfolding usage_sort_key reset_bucket_days
reset_first_sort_key current s = reset_bucket_days current s ∷ usage_sort_key s

-- What the code takes from Python's library: `str.strip` with `str.lower`, and the index of the
-- element that `random.choices` draws for a list of weights.
pub record Host : Type 0 where
  pub normalize : String → String
  pub choices : List ℕ → ℕ

-- `PLAN_CAPACITY_CREDITS_SECONDARY` of app/core/usage/__init__.py, after `CAPACITY_PLAN_ALIASES`.
unfoldable resolve_plan : String → String
resolve_plan plan =
    if str_eq plan "education" || str_eq plan "k12"
    then "edu"
    else if str_eq plan "guest"
        || str_eq plan "go"
        || str_eq plan "free_workspace"
        || str_eq plan "quorum"
        || str_eq plan "unknown"
        || str_eq plan ""
    then "free"
    else plan

unfoldable plan_capacity_credits_secondary : String → ℕ
plan_capacity_credits_secondary plan =
    if str_eq plan "plus" || str_eq plan "business" || str_eq plan "team" || str_eq plan "edu"
    then 7560
    else if str_eq plan "pro" || str_eq plan "enterprise"
    then 50400
    else if str_eq plan "prolite"
    then 37800
    else 1134

unfoldable pub fallback_secondary_capacity_credits : Host → Option String → ℕ
unfolding resolve_plan plan_capacity_credits_secondary
fallback_secondary_capacity_credits host plan =
    plan_capacity_credits_secondary (resolve_plan (host.normalize (or_default plan "")))

-- In hundredths of a credit: `max(0.0, capacity * (1.0 - min(used_pct, 100.0) / 100.0))`.
unfoldable pub remaining_secondary_credits : Host → AccountState → ℕ
remaining_secondary_credits host s =
    or_default s.capacity_credits (fallback_secondary_capacity_credits host s.plan_type)
    * (100 - min (secondary_used s) 100)

-- `_capacity_probe_sort_key`: the credits count downwards, then the usage key.
unfoldable pub probe_lt : Host → AccountState → AccountState → Bool
probe_lt host a b =
    let ra = remaining_secondary_credits host a in
    let rb = remaining_secondary_credits host b in
    if ra == rb then key_lt (usage_sort_key a) (usage_sort_key b) else ltb rb ra
