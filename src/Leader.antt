-- ===== src/Leader.antt =====
-- `LeaderElection` of app/core/scheduling/leader_election.py. The table scheduler_leader has one row at
-- most. Whether the database answers is an argument: an exception of the source is `false` there.
pub mod Lease
mod Tests
use codex_lb_mod.Base.{
  Bool, Option, false, if◌then◌else◌, ltb, none, not, some, true, ℕ, ◌+◌, ◌==◌, ◌||◌,
}
use codex_lb_mod.Balancer.State.{seconds}

pub record SchedulerLeader : Type 0 where
  pub leader_id : ℕ
  pub acquired_at : ℕ
  pub expires_at : ℕ

pub record Settings : Type 0 where
  pub leader_election_enabled : Bool
  pub is_sqlite : Bool
  pub leader_election_ttl_seconds : ℕ

pub record LeaderElection : Type 0 where
  pub own_id : ℕ
  pub is_leader : Bool

-- INSERT … ON CONFLICT (id) DO UPDATE … WHERE expires_at < now OR leader_id = own
unfoldable pub upsert_leader : ℕ → ℕ → ℕ → Option SchedulerLeader → Option SchedulerLeader
upsert_leader own now expires row =
    let new_row = some (record { leader_id = own; acquired_at = now; expires_at = expires }) in
    elim row [
      | none ↦ new_row
      | some r ↦ if ltb r.expires_at now || r.leader_id == own then new_row else some r
    ]

-- UPDATE … SET expires_at WHERE id = 1 AND leader_id = own
unfoldable pub extend_leader : ℕ → ℕ → Option SchedulerLeader → Option SchedulerLeader
extend_leader own expires none = none
extend_leader own expires (some r) =
    if r.leader_id == own then some (record r { expires_at = expires }) else some r

abbrev is_led_by : ℕ → Option SchedulerLeader → Bool
is_led_by own none = false
is_led_by own (some r) = r.leader_id == own

-- The answer of a call is kept with the table and the object.
pub record Answer : Type 0 where
  pub row : Option SchedulerLeader
  pub election : LeaderElection
  pub answer : Bool

-- No election is needed.
abbrev pub is_single : Settings → Bool
is_single s = not s.leader_election_enabled || s.is_sqlite

unfoldable pub try_acquire : Settings → Bool → ℕ → LeaderElection → Option SchedulerLeader → Answer
unfolding upsert_leader
try_acquire s answers now e row =
    let expires = now + seconds s.leader_election_ttl_seconds in
    let after = upsert_leader e.own_id now expires row in
    let led = is_led_by e.own_id after in
    if is_single s
    then record { row = row; election = record e { is_leader = true }; answer = true }
    else if answers
    then record { row = after; election = record e { is_leader = led }; answer = led }
    else record { row = row; election = record e { is_leader = false }; answer = false }

unfoldable pub renew : Settings → Bool → ℕ → LeaderElection → Option SchedulerLeader → Answer
unfolding extend_leader
renew s answers now e row =
    let expires = now + seconds s.leader_election_ttl_seconds in
    let after = extend_leader e.own_id expires row in
    if not e.is_leader
    then record { row = row; election = e; answer = false }
    else if is_single s
    then record { row = row; election = e; answer = true }
    else if answers
    then record { row = after; election = e; answer = true }
    else record { row = row; election = e; answer = false }
