-- ===== src/LoadBalancer/Plans.antt =====
-- app/core/usage/__init__.py and app/core/plan_types.py: what a plan holds, and which of two usage
-- rows speaks for the weekly window.
use Prim.Native.String.{String}
use text.Mathlib.Text.{◌==◌ as str_eq}
use codex_lb_mod.Base.{
  Bool, Option, false, if◌then◌else◌, ltb, none, some, true, ℕ, ◌&&◌, ◌==◌, ◌||◌,
}
use codex_lb_mod.LoadBalancer.Accounts.{UsageHistory}

abbrev is_account_plan_type : String → Bool
is_account_plan_type plan =
    str_eq plan "free"
    || str_eq plan "plus"
    || str_eq plan "pro"
    || str_eq plan "prolite"
    || str_eq plan "team"
    || str_eq plan "business"
    || str_eq plan "enterprise"
    || str_eq plan "edu"

-- `clean` stands for `str.strip` with `str.lower`.
unfoldable pub normalize_account_plan_type : (String → String) → String → Option String
normalize_account_plan_type clean plan =
    if str_eq (clean plan) ""
    then none
    else if is_account_plan_type (clean plan)
    then some (clean plan)
    else none

-- `capacity_for_plan(plan, "secondary")`, by the table of the secondary window.
unfoldable pub secondary_capacity_for_plan : (String → String) → String → Option ℕ
unfolding normalize_account_plan_type
secondary_capacity_for_plan clean plan = elim (normalize_account_plan_type clean plan) [
  | none ↦ none
  | some p ↦
      if str_eq p "free"
      then some 1134
      else if str_eq p "pro" || str_eq p "enterprise"
      then some 50400
      else if str_eq p "prolite"
      then some 37800
      else some 7560
]

abbrev default_window_minutes_secondary : ℕ
default_window_minutes_secondary = 10080

unfoldable pub is_weekly_window_minutes : Option ℕ → Bool
is_weekly_window_minutes none = false
is_weekly_window_minutes (some minutes) = minutes == default_window_minutes_secondary

-- Which of two optional values is the greater one, with `tie` for equal or two missing ones.
abbrev prefer_later : Option ℕ → Option ℕ → Bool → Bool
prefer_later none none tie = tie
prefer_later (some a) none tie = true
prefer_later none (some b) tie = false
prefer_later (some a) (some b) tie = if a == b then tie else ltb b a

unfoldable pub should_prefer_primary_row : UsageHistory → UsageHistory → Bool
should_prefer_primary_row primary_row secondary_row =
    prefer_later primary_row.recorded_at secondary_row.recorded_at
      (prefer_later primary_row.reset_at secondary_row.reset_at true)

abbrev or_missing : (UsageHistory → Bool) → Option UsageHistory → Bool
or_missing prefers none = true
or_missing prefers (some row) = prefers row

unfoldable pub should_use_weekly_primary : UsageHistory → Option UsageHistory → Bool
unfolding is_weekly_window_minutes should_prefer_primary_row
should_use_weekly_primary primary_row secondary_row =
    is_weekly_window_minutes primary_row.window_minutes
    && or_missing (should_prefer_primary_row primary_row) secondary_row
