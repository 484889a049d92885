-- ===== src/Balancer/Health.antt =====
-- `evaluate_health_tier` of app/core/balancer/logic.py: healthy (0), draining (1), probing (2).
pub mod Tiers
use codex_lb_mod.Base.{
  Bool, Option, false, if◌then◌else◌, leb, ltb, none, some, ℕ, ◌&&◌, ◌+◌, ◌==◌, ◌||◌,
}
use codex_lb_mod.Balancer.State.{AccountState, AccountStatus, same_status}

pub record Thresholds : Type 0 where
  pub drain_primary_threshold_pct : ℕ
  pub drain_secondary_threshold_pct : ℕ
  pub drain_error_window : ℕ
  pub drain_error_count_threshold : ℕ
  pub probe_quiet : ℕ
  pub probe_success_streak_required : ℕ

abbrev pub default_thresholds : Thresholds
default_thresholds = record {
  drain_primary_threshold_pct = 85;
  drain_secondary_threshold_pct = 90;
  drain_error_window = 60000;
  drain_error_count_threshold = 2;
  probe_quiet = 60000;
  probe_success_streak_required = 3;
}

abbrev pub healthy : ℕ
healthy = 0

abbrev pub draining : ℕ
draining = 1

abbrev pub probing : ℕ
probing = 2

-- `used is not None and used >= threshold`
abbrev at_least : ℕ → Option ℕ → Bool
at_least threshold none = false
at_least threshold (some used) = leb threshold used

-- `since is not None and current - since < window`
abbrev within : ℕ → ℕ → Option ℕ → Bool
within current window none = false
within current window (some since) = ltb current (since + window)

-- `since is not None and current - since >= period`
abbrev pub elapsed : ℕ → ℕ → Option ℕ → Bool
elapsed current period none = false
elapsed current period (some since) = leb (since + period) current

unfoldable pub should_drain : Thresholds → ℕ → AccountState → Bool
should_drain h current s =
    at_least h.drain_primary_threshold_pct s.used_percent
    || at_least h.drain_secondary_threshold_pct s.secondary_used_percent
    || (leb h.drain_error_count_threshold s.error_count
        && within current h.drain_error_window s.last_error_at)

-- The tier of an account that is not blocked, for whether it should drain.
unfoldable pub next_tier : Thresholds → ℕ → Option ℕ → ℕ → Bool → ℕ → ℕ
next_tier h current drain_entered_at streak drain tier =
    if tier == healthy
    then if drain then draining else healthy
    else if tier == draining
    then if drain
      then draining
      else if elapsed current h.probe_quiet drain_entered_at
      then probing
      else draining
    else if tier == probing
    then if drain
      then draining
      else if leb h.probe_success_streak_required streak
      then healthy
      else probing
    else healthy

unfoldable pub evaluate_health_tier : Thresholds → ℕ → Option ℕ → ℕ → AccountState → ℕ
unfolding next_tier
evaluate_health_tier h current drain_entered_at streak s =
    if same_status s.status AccountStatus.active
    then next_tier h current drain_entered_at streak (should_drain h current s) s.health_tier
    else s.health_tier
