-- ===== src/ApiKeys/Recording.antt =====
-- Usage that is recorded without a reservation: `record_usage` of app/modules/api_keys/service.py and
-- `increment_limit_usage` of repository.py. One transaction.
use mathlib.Core.Option
use codex_lb_mod.Base.{
  Bool-cases, List, Option, [], ap, arith, if◌then◌else◌, inl, inr, ltb, none, not, or_default,
  refl, some, true, ℕ, ◌&&◌, ◌+◌, ◌==◌, ◌∙◌, ◌∷◌, ◌≡◌,
}
use codex_lb_mod.ApiKeys.Types.{ApiKey, ApiKeyLimit, Database, limit_applies_for_request}
use codex_lb_mod.ApiKeys.Budget.{CostFunction, compute_increment_for_limit_type}
use codex_lb_mod.ApiKeys.Repository.{update_last_used, update_where}
use codex_lb_mod.ApiKeys.Service.{Usage, limits_of, usage_cost}

-- UPDATE … SET current_value = current_value + increment WHERE id = limit_id
unfoldable pub add_usage : Database → ℕ → ℕ → Database
unfolding update_where
add_usage db limit_id increment =
    let (limits, _) =
      update_where db.limits limit_id (λ l. true)
        (λ l. record l { current_value = l.current_value + increment }) in
    record db { limits = limits }

-- `_compute_increment` for a usage with its cost.
abbrev pub increment_of : CostFunction → Usage → ApiKeyLimit → ℕ
increment_of cost u l =
    compute_increment_for_limit_type l.limit_type (or_default u.used_input 0)
      (or_default u.used_output 0) (usage_cost cost u)

-- The loop of `increment_limit_usage`.
unfoldable pub increment_limits : CostFunction → Usage → List ApiKeyLimit → Database → Database
unfolding add_usage
increment_limits cost u [] db = db
increment_limits cost u (l ∷ ls) db =
    let skip = increment_limits cost u ls db in
    let added = increment_limits cost u ls (add_usage db l.id (increment_of cost u l)) in
    if not (limit_applies_for_request l (some u.used_model))
    then skip
    else if ltb 0 (increment_of cost u l)
    then added
    else skip

-- `record_usage`; the limits of the key are read first.
unfoldable pub record_usage : CostFunction → ℕ → ℕ → Usage → Database → Database
record_usage cost now key_id u db = elim (db.keys key_id) [
  | none ↦ update_last_used db key_id now
  | some k ↦ update_last_used (increment_limits cost u (limits_of db k.limit_ids) db) key_id now
]

-- What a list of limits gains at one id.
abbrev pub gained : CostFunction → Usage → ℕ → List ApiKeyLimit → ℕ
gained cost u key [] = 0
gained cost u key (l ∷ ls) =
    (if l.id == key && limit_applies_for_request l (some u.used_model)
      then increment_of cost u l
      else 0)
    + gained cost u key ls

abbrev pub raised_by : ℕ → ApiKeyLimit → ApiKeyLimit
raised_by n l = record l { current_value = l.current_value + n }

raised_by-zero : (o : Option ApiKeyLimit) → o ≡ Option.map (raised_by 0) o
raised_by-zero none = refl
raised_by-zero (some l) = ap some (ground arith)

raised_by-add :
    (m n : ℕ) (o : Option ApiKeyLimit)
    → Option.map (raised_by n) (Option.map (raised_by m) o) ≡ Option.map (raised_by (m + n)) o
raised_by-add m n none = refl
raised_by-add m n (some l) = ap some (ground arith)

add_usage-limits :
    (db : Database) (id n key : ℕ)
    → (add_usage db id n).limits key
      ≡ Option.map (raised_by (if id == key then n else 0)) (db.limits key)
unfolding add_usage update_where
add_usage-limits db id n key = ground arith

increment_limits-limits :
    (cost : CostFunction) (u : Usage) (ls : List ApiKeyLimit) (db : Database) (key : ℕ)
    → (increment_limits cost u ls db).limits key
      ≡ Option.map (raised_by (gained cost u key ls)) (db.limits key)
unfolding increment_limits
increment_limits-limits cost u [] db key = raised_by-zero (db.limits key)
increment_limits-limits cost u (l ∷ ls) db key =
    elim (Bool-cases (limit_applies_for_request l (some u.used_model))) [
      | inr other ↦
          rw (increment_limits, other)
            (increment_limits-limits cost u ls db key
              ∙ ap (λ n. Option.map (raised_by n) (db.limits key)) (ground arith))
      | inl applies ↦ elim (Bool-cases (ltb 0 (increment_of cost u l))) [
        | inr nothing ↦
            rw (increment_limits, applies, nothing)
              (increment_limits-limits cost u ls db key
                ∙ ap (λ n. Option.map (raised_by n) (db.limits key)) (ground arith))
        | inl some_usage ↦
            rw (increment_limits, applies, some_usage)
              (increment_limits-limits cost u ls (add_usage db l.id (increment_of cost u l)) key
                ∙ ap (Option.map (raised_by (gained cost u key ls)))
                    (add_usage-limits db l.id (increment_of cost u l) key)
                ∙ raised_by-add (if l.id == key then increment_of cost u l else 0)
                    (gained cost u key ls) (db.limits key)
                ∙ ap (λ n. Option.map (raised_by n) (db.limits key)) (ground arith))
      ]
    ]

last_used-limits : (db : Database) (key now : ℕ) → (update_last_used db key now).limits ≡ db.limits
unfolding update_last_used
last_used-limits db key now = refl

-- `record_usage` raises each limit of the key that applies to the model by the usage of its kind, and
-- no other limit; windows and maxima stay as they are.
pub record_usage-limits :
    (cost : CostFunction) (now key_id key : ℕ) (u : Usage) (k : ApiKey) (db : Database)
    → db.keys key_id ≡ some k
    → (record_usage cost now key_id u db).limits key
      ≡ Option.map (raised_by (gained cost u key (limits_of db k.limit_ids))) (db.limits key)
unfolding record_usage
record_usage-limits cost now key_id key u k db found =
    rw
      (
        record_usage,
        found,
        last_used-limits (increment_limits cost u (limits_of db k.limit_ids) db) key_id now,
      )
      (increment_limits-limits cost u (limits_of db k.limit_ids) db key)
