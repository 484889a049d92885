-- ===== src/Leader/Lease.antt =====
-- The lease of the leader (app/core/scheduling/leader_election.py).
use codex_lb_mod.Base.{
  All, Bool, List, Option, [], arith, false, if◌then◌else◌, ltb, none, some, true, ℕ, ◌+◌, ◌==◌,
  ◌&&◌, ◌||◌, ◌∷◌, ◌≡◌, ◌≢◌, ◌≤◌,
}
use codex_lb_mod.Balancer.State.{seconds}
use codex_lb_mod.Leader.{
  Answer, LeaderElection, SchedulerLeader, Settings, extend_leader, is_single, renew, try_acquire,
  upsert_leader,
}

-- An election in a database that answers is won exactly where there is no row, the row's lease is
-- over, or it is one's own; the row afterwards is one's own exactly where it was won, and then has a
-- lease of the full length, and otherwise nothing changed.
try_acquire_iff :
    (s : Settings) (now : ℕ) (e : LeaderElection) (row : Option SchedulerLeader)
    → is_single s ≡ false
    → ((try_acquire s true now e row).answer
        ≡ (elim row [ none ↦ true | some r ↦ ltb r.expires_at now || r.leader_id == e.own_id ]))
      × ((try_acquire s true now e row).row ≡ (
          if (try_acquire s true now e row).answer
          then some (record {
            leader_id = e.own_id;
            acquired_at = now;
            expires_at = now + seconds s.leader_election_ttl_seconds;
          })
          else row))
      × ((try_acquire s true now e row).election.is_leader ≡ (try_acquire s true now e row).answer)
unfolding try_acquire upsert_leader
try_acquire_iff s now e row h = ground arith

-- What another instance does, at a time.
pub record Rival : Type 0 where
  pub rival : LeaderElection
  pub rival_time : ℕ
  pub rival_renews : Bool
  pub rival_answered : Bool

unfoldable pub compete : Settings → Rival → Option SchedulerLeader → Answer
compete s r row =
    if r.rival_renews
    then renew s r.rival_answered r.rival_time r.rival row
    else try_acquire s r.rival_answered r.rival_time r.rival row

unfoldable pub compete_all : Settings → List Rival → Option SchedulerLeader → Option SchedulerLeader
compete_all s [] row = row
compete_all s (r ∷ rs) row = compete_all s rs (compete s r row).row

compete-keeps :
    (s : Settings) (r : Rival) (l : SchedulerLeader)
    → is_single s ≡ false
    → r.rival.own_id ≢ l.leader_id
    → r.rival_time ≤ l.expires_at
    → (compete s r (some l)).row ≡ some l
unfolding compete try_acquire renew upsert_leader extend_leader
compete-keeps s r l h other early = ground arith

-- Where leaders are elected, a leader's row stays as it is until its lease ends, whatever the other
-- instances try, and none of them wins the election.
pub lease_excludes :
    (s : Settings) (l : SchedulerLeader) (rs : List Rival) (e : LeaderElection) (answers : Bool)
    (now : ℕ)
    → is_single s ≡ false
    → All (λ r. (r.rival.own_id ≢ l.leader_id) × (r.rival_time ≤ l.expires_at)) rs
    → e.own_id ≢ l.leader_id
    → now ≤ l.expires_at
    → (compete_all s rs (some l) ≡ some l)
      × ((try_acquire s answers now e (compete_all s rs (some l))).answer ≡ false)
unfolding compete_all try_acquire upsert_leader
lease_excludes s l [] e answers now h others other early = ground arith
lease_excludes s l (r ∷ rs) e answers now h (o, others) other early =
    rw (compete-keeps s r l h o.0 o.1) (lease_excludes s l rs e answers now h others other early)

-- Where leaders are elected, a renewal says yes exactly where the instance's own flag is set and the
-- database answers, whoever's the row is, if there is one; it never changes the flag; and it changes
-- the table only where it says yes and the row is its own, whose lease then has the full length.
pub renew_iff :
    (s : Settings) (answers : Bool) (now : ℕ) (e : LeaderElection) (row : Option SchedulerLeader)
    → is_single s ≡ false
    → ((renew s answers now e row).answer ≡ (e.is_leader && answers))
      × ((renew s answers now e row).election ≡ e)
      × ((renew s answers now e row).row ≡ elim row as (λ _. Option SchedulerLeader) [
        | none ↦ none
        | some l ↦
            if e.is_leader && answers && l.leader_id == e.own_id
            then some (record l { expires_at = now + seconds s.leader_election_ttl_seconds })
            else some l
      ])
unfolding renew extend_leader
renew_iff s answers now e row h = ground arith
