-- ===== src/LoadBalancer/Loop/Reached.antt =====
-- The attempts that the loop of `LoadBalancer.select_account` makes, and what is known of an account
-- that it returns (app/modules/proxy/load_balancer.py).
use codex_lb_mod.Base.{In, some, suc, true, ℕ, ◌||◌, ◌≡◌}
use codex_lb_mod.Balancer.State.{AccountState}
use codex_lb_mod.Balancer.Eligibility.Serving.{IsServing}
use codex_lb_mod.Balancer.Ranking.{Host}
use codex_lb_mod.LoadBalancer.Accounts.{Account}
use codex_lb_mod.LoadBalancer.Inputs.{SelectionInputs}
use codex_lb_mod.LoadBalancer.Marks.{LoadBalancer}
use codex_lb_mod.LoadBalancer.Persist.Selection.{IsPersisted}
use codex_lb_mod.LoadBalancer.Loop.{SelectRequest, Tasks, chosen_in, snapshot_of, try_once}

-- Which attempts a run of the loop makes, with the balancer and the load that each starts with: the
-- first one, and after an attempt that is stale or to be made again those that follow on what it
-- left and on the next load.
pub data Reaches (host : Host) (tasks : Tasks) (q : SelectRequest) (now : ℕ)
    : ℕ → LoadBalancer → SelectionInputs → ℕ → LoadBalancer → SelectionInputs → Type 0 where
  this :
      (left : ℕ) (b : LoadBalancer) (inputs : SelectionInputs)
      → Reaches host tasks q now left b inputs left b inputs
  later :
      (left : ℕ) (b : LoadBalancer) (inputs : SelectionInputs) (n : ℕ) (before : LoadBalancer)
      (last : SelectionInputs)
      → (try_once host tasks q now (suc left) b inputs).is_stale
          || (try_once host tasks q now (suc left) b inputs).tries_again
        ≡ true
      → Reaches host tasks q now left
          (try_once host tasks q now (suc left) b inputs).balancer
          (tasks.reload (suc left))
          n
          before
          last
      → Reaches host tasks q now (suc left) b inputs n before last

-- What an attempt with its load returns: the account of the state that it chose, whose row the
-- load offered.
pub record IsServed (host : Host) (q : SelectRequest) (now : ℕ) (before : LoadBalancer)
    (last : SelectionInputs) (after : LoadBalancer) (a : Account) : Type 0 where
  pub row : Account
  pub state : AccountState
  pub was_chosen : (chosen_in host q now before last).0.1.account ≡ some state
  pub same_id : row.id ≡ state.account_id
  pub made : a ≡ snapshot_of state row
  pub is_offered : In row last.offered
  pub is_serving : IsServing now state
  pub is_persisted : IsPersisted after.rows row state

-- An account that is returned comes from the last attempt of those that were made, and the balancer
-- afterwards is the one that this attempt left.
pub record IsLastServed (host : Host) (tasks : Tasks) (q : SelectRequest) (now left : ℕ)
    (b : LoadBalancer) (inputs : SelectionInputs) (after : LoadBalancer) (a : Account)
    : Type 0 where
  pub attempts_left : ℕ
  pub before : LoadBalancer
  pub last : SelectionInputs
  pub reached : Reaches host tasks q now left b inputs attempts_left before last
  pub is_left : (try_once host tasks q now attempts_left before last).balancer ≡ after
  pub is_served : IsServed host q now before last after a
