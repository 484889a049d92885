-- ===== src/ApiKeys/Retry.antt =====
-- The attempts of `finalize_usage_reservation`, `fail_usage_reservation`, `touch_usage_reservation` and
-- `release_usage_reservation` (app/modules/api_keys/service.py). Each attempt is one transaction: where
-- the database raises an operational error it is rolled back, and tried again if the file was locked.
use codex_lb_mod.Base.{
  ==_iff, Bool, Bool-cases, Option, arith, if◌then◌else◌, inl, inr, none, refl, some, subst, suc,
  sym, true, zero, ℕ, ◌+◌, ◌<◌, ◌==◌, ◌≡◌, ◌≢◌, ◌≤◌,
}
use codex_lb_mod.ApiKeys.Types.{Database, ReservationStatus}
use codex_lb_mod.ApiKeys.Budget.{CostFunction}
use codex_lb_mod.ApiKeys.Repository.{touch_usage_reservation}
use codex_lb_mod.ApiKeys.Service.{Usage, release_usage_reservation, settle_reservation}

-- What the database does with an attempt.
pub data Response : Type 0 where
  serves database_locked fails : Response

abbrev sqlite_busy_retry_attempts : ℕ
sqlite_busy_retry_attempts = 4

-- The loop, with the attempts that are left; `none` is the error that it raises. An attempt reads the
-- clock anew, so the work depends on its number.
unfoldable pub retry {ℓ} :
    {A : Type ℓ}
    → (ℕ → Response)
    → (ℕ → Database → Database × A)
    → ℕ
    → ℕ
    → Database
    → Database × Option A
retry respond op attempt zero db = (db, none)
retry respond op attempt (suc left) db =
    let again = retry respond op (suc attempt) left db in
    elim (respond attempt) [
      | serves ↦ ((op attempt db).0, some (op attempt db).1)
      | fails ↦ (db, none)
      | database_locked ↦ if left == 0 then (db, none) else again
    ]

abbrev done : {A : Type 0} → (A → Database → Database) → A → Database → Database × Bool
done change a db = (change a db, true)

unfoldable pub finalize_usage_reservation :
    CostFunction → (ℕ → Response) → (ℕ → ℕ) → ℕ → Usage → Database → Database × Option Bool
finalize_usage_reservation cost respond clock rid u =
    retry respond
      (λ i. done (λ now. settle_reservation cost now ReservationStatus.finalized rid u) (clock i)) 0
      sqlite_busy_retry_attempts

unfoldable pub fail_usage_reservation :
    CostFunction → (ℕ → Response) → (ℕ → ℕ) → ℕ → Usage → Database → Database × Option Bool
fail_usage_reservation cost respond clock rid u =
    retry respond
      (λ i. done (λ now. settle_reservation cost now ReservationStatus.failed rid u) (clock i)) 0
      sqlite_busy_retry_attempts

unfoldable pub retried_touch : (ℕ → Response) → (ℕ → ℕ) → ℕ → Database → Database × Option Bool
retried_touch respond clock rid =
    retry respond (λ i db. touch_usage_reservation db rid (clock i)) 0 sqlite_busy_retry_attempts

unfoldable pub retried_release : (ℕ → Response) → (ℕ → ℕ) → ℕ → Database → Database × Option Bool
retried_release respond clock rid =
    retry respond (λ i. done (λ now. release_usage_reservation now rid) (clock i)) 0
      sqlite_busy_retry_attempts

-- The attempts from one up to another were all locked out.
abbrev pub AreLocked : (ℕ → Response) → ℕ → ℕ → Type 0
AreLocked respond first k = (j : ℕ) → first ≤ j → j < k → respond j ≡ database_locked

-- How a loop ends: the work is done once, at the attempt that is served after locked ones only; or
-- there is no such attempt, and nothing is done.
pub data Ending {A : Type 0} (respond : ℕ → Response) (op : ℕ → Database → Database × A)
    (db : Database) (first left : ℕ) : Database × Option A → Type 0 where
  did :
      (k : ℕ)
      → first ≤ k
      → k < first + left
      → AreLocked respond first k
      → respond k ≡ serves
      → Ending respond op db first left ((op k db).0, some (op k db).1)
  gave_up :
      ((k : ℕ) → first ≤ k → k < first + left → AreLocked respond first k → respond k ≢ serves)
      → Ending respond op db first left (db, none)

locked_before :
    (respond : ℕ → Response) (first k : ℕ)
    → respond first ≡ database_locked
    → AreLocked respond (suc first) k
    → AreLocked respond first k
locked_before respond first k e h j a b = elim (Bool-cases (first == j)) [
  | inl same ↦ subst (λ i. respond i ≡ database_locked) ((==_iff first j).0 same) e
  | inr later ↦ h j (ground arith) b
]

widen :
    {A : Type 0} (respond : ℕ → Response) (op : ℕ → Database → Database × A) (db : Database)
    (first left : ℕ) (r : Database × Option A)
    → respond first ≡ database_locked
    → Ending respond op db (suc first) left r
    → Ending respond op db first (suc left) r
widen respond op db first left _ e (did k a b h served) =
    did k (omega arith) (omega arith) (locked_before respond first k e h) served
widen respond op db first left _ e (gave_up never) = gave_up (λ k a b h served.
    elim (Bool-cases (first == k)) [
      | inl same ↦ cc ((==_iff first k).0 same, e, served)
      | inr later ↦ never k (ground arith) (omega arith) (λ j c d. h j (omega arith) d) served
    ])

unserved :
    {A : Type 0} (respond : ℕ → Response) (op : ℕ → Database → Database × A) (db : Database)
    (first left : ℕ)
    → respond first ≡ fails
    → Ending respond op db first left (db, none)
unserved respond op db first left e = gave_up (λ k a b h served. elim (Bool-cases (first == k)) [
  | inl same ↦ cc ((==_iff first k).0 same, e, served)
  | inr later ↦ cc (h first (omega arith) (ground arith), e)
])

none_left :
    {A : Type 0} (respond : ℕ → Response) (op : ℕ → Database → Database × A) (db : Database)
    (first : ℕ)
    → Ending respond op db first 0 (db, none)
none_left respond op db first = gave_up (λ k a b h served. absurd (omega arith))

retry_step :
    {A : Type 0} (respond : ℕ → Response) (op : ℕ → Database → Database × A) (db : Database)
    (first left : ℕ) (r : Response)
    → respond first ≡ r
    → Ending respond op db (suc first) left (retry respond op (suc first) left db)
    → Ending respond op db first (suc left) (retry respond op first (suc left) db)
unfolding retry
retry_step respond op db first left serves e again =
    rw (retry, e) (did first (omega arith) (omega arith) (λ j a b. absurd (omega arith)) e)
retry_step respond op db first left fails e again =
    rw (retry, e) (unserved respond op db first (suc left) e)
retry_step respond op db first left database_locked e again = elim (Bool-cases (left == 0)) [
  | inl last ↦
      rw (retry, e, last)
        (widen respond op db first left (db, none) e
          (subst (λ n. Ending respond op db (suc first) n (db, none)) (sym ((==_iff left 0).0 last))
            (none_left respond op db (suc first))))
  | inr more ↦
      rw (retry, e, more)
        (widen respond op db first left (retry respond op (suc first) left db) e again)
]

-- The loop of attempts does the work once, at the first attempt that is not locked out, if that one is
-- served; otherwise it raises and leaves the database as it was.
pub retry-Ending :
    {A : Type 0} (respond : ℕ → Response) (op : ℕ → Database → Database × A) (db : Database)
    (first left : ℕ)
    → Ending respond op db first left (retry respond op first left db)
unfolding retry
retry-Ending respond op db first zero = none_left respond op db first
retry-Ending respond op db first (suc left) =
    retry_step respond op db first left (respond first) refl
      (retry-Ending respond op db (suc first) left)
