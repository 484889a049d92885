-- ===== src/Balancer/Select/Hints.antt =====
-- The message of `select_account` (app/core/balancer/logic.py) when nobody can serve.
use codex_lb_mod.Base.{
  Bool, List, Option, [], arith, false, ltb, map, min, none, not, or_default, or_else, select, some,
  true, ℕ, ◌*◌, ◌-◌, ◌/◌, ◌||◌, ◌∷◌, ◌≤◌,
}
use codex_lb_mod.Balancer.State.{AccountState, AccountStatus, seconds}
use codex_lb_mod.Balancer.Select.{
  Message, all_paused, cooldown_hint, earliest, explain, format_retry_hint, is_empty,
  no_available_accounts, paused_or_reauthentication, pick_message, quota_hint, reauthentication,
  retry_hint, round_seconds, truthy_times, with_status,
}

-- A message that names a wait names at most `SELECTOR_RETRY_HINT_MAX_SECONDS`.
abbrev pub IsCapped : Message → Type 0
IsCapped (retry_hint n) = n ≤ 300
IsCapped paused_or_reauthentication = Unit {0}
IsCapped all_paused = Unit {0}
IsCapped reauthentication = Unit {0}
IsCapped no_available_accounts = Unit {0}

round_seconds-le : (ms : ℕ) → ms ≤ 300000 → round_seconds ms ≤ 300
unfolding round_seconds
round_seconds-le ms h = ground arith

format_retry_hint-IsCapped : (wait : ℕ) → IsCapped (format_retry_hint wait)
unfolding format_retry_hint
format_retry_hint-IsCapped wait = round_seconds-le (min wait (seconds 300)) (omega arith)

OptionCapped : Option Message → Type 0
OptionCapped none = Unit {0}
OptionCapped (some m) = IsCapped m

quota_hint-capped :
    (current : ℕ) (blocked : List AccountState) → OptionCapped (quota_hint current blocked)
unfolding quota_hint OptionCapped
quota_hint-capped current blocked =
    elim (truthy_times (map (λ s. s.reset_at) blocked))
      as (λ l. OptionCapped (elim l [
        | [] ↦ none
        | t ∷ ts ↦ some (format_retry_hint (earliest t ts - current / 1000 * 1000))
      ])) [ [] ↦ tt | t ∷ ts ↦ format_retry_hint-IsCapped (earliest t ts - current / 1000 * 1000) ]

cooldown_hint-capped :
    (current : ℕ) (states : List AccountState) → OptionCapped (cooldown_hint current states)
unfolding cooldown_hint OptionCapped
cooldown_hint-capped current states =
    elim (select (ltb current) (truthy_times (map (λ s. s.cooldown_until) states)))
      as (λ l.
        OptionCapped
          (elim l [ [] ↦ none | t ∷ ts ↦ some (format_retry_hint (earliest t ts - current)) ])) [
            | [] ↦ tt
            | t ∷ ts ↦ format_retry_hint-IsCapped (earliest t ts - current)
          ]

hints-IsCapped :
    (a b : Option Message)
    → OptionCapped a
    → OptionCapped b
    → IsCapped (or_default (or_else a b) no_available_accounts)
unfolding OptionCapped
hints-IsCapped none none h k = tt
hints-IsCapped none (some m) h k = k
hints-IsCapped (some m) b h k = h

pick_message-IsCapped :
    (has_paused has_deactivated has_blocked : Bool) (m : Message)
    → IsCapped m
    → IsCapped (pick_message has_paused has_deactivated has_blocked m)
unfolding pick_message
pick_message-IsCapped true true true m h = h
pick_message-IsCapped true true false m h = tt
pick_message-IsCapped true false true m h = h
pick_message-IsCapped true false false m h = tt
pick_message-IsCapped false true true m h = h
pick_message-IsCapped false true false m h = tt
pick_message-IsCapped false false b m h = h

abbrev hint : ℕ → List AccountState → Message
hint current states =
    or_default
      (or_else (quota_hint current (with_status AccountStatus.quota_exceeded states))
        (cooldown_hint current states))
      no_available_accounts

pub explain-IsCapped :
    (current : ℕ) (states : List AccountState) → IsCapped (explain current states)
unfolding explain
explain-IsCapped current states =
    pick_message-IsCapped (not (is_empty (with_status AccountStatus.paused states)))
      (not (is_empty (with_status AccountStatus.deactivated states)))
      (not (is_empty (with_status AccountStatus.rate_limited states))
        || not (is_empty (with_status AccountStatus.quota_exceeded states)))
      (hint current states)
      (hints-IsCapped (quota_hint current (with_status AccountStatus.quota_exceeded states))
        (cooldown_hint current states)
        (quota_hint-capped current (with_status AccountStatus.quota_exceeded states))
        (cooldown_hint-capped current states))
