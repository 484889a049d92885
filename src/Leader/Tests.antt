-- ===== src/Leader/Tests.antt =====
-- Two instances and one leader.
use codex_lb_mod.Base.{[], arith, false, refl, some, true, ◌∷◌, ◌≡◌}
use codex_lb_mod.Leader.{LeaderElection, SchedulerLeader, Settings, renew, try_acquire}
use codex_lb_mod.Leader.Lease.{Rival, compete_all, lease_excludes, renew_iff}

abbrev settings : Settings
settings = record {
  leader_election_enabled = true;
  is_sqlite = false;
  leader_election_ttl_seconds = 30;
}

abbrev leader : SchedulerLeader
leader = record { leader_id = 1; acquired_at = 0; expires_at = 30000 }

abbrev second : LeaderElection
second = record { own_id = 2; is_leader = true }

abbrev challenge : Rival
challenge = record {
  rival = second;
  rival_time = 10000;
  rival_renews = false;
  rival_answered = true;
}

lease_excludes_example :
    (compete_all settings (challenge ∷ []) (some leader) ≡ some leader)
    × ((try_acquire settings true 20000 second
          (compete_all settings (challenge ∷ []) (some leader))).answer
        ≡ false)
lease_excludes_example =
    lease_excludes settings leader (challenge ∷ []) second true 20000 refl
      ((omega arith, omega arith), tt) (omega arith) (omega arith)

-- The row has become another instance's.
renew_iff_example :
    ((renew settings true 20000 second (some leader)).answer ≡ true)
    × ((renew settings true 20000 second (some leader)).election ≡ second)
    × ((renew settings true 20000 second (some leader)).row ≡ some leader)
renew_iff_example = renew_iff settings true 20000 second (some leader) refl
