-- ===== src/ApiKeys/Stale/Drained.antt =====
-- The loop of `release_stale_usage_reservations` (app/modules/api_keys/repository.py) ends with no
-- stale reservation left.
use codex_lb_mod.Base.Member.{In-select}
use codex_lb_mod.Base.{
  ==_iff, Bool, Bool-cases, In, List, Option-cases, [], ap, arith, exists, false, inl, inr, length,
  not, put_other, put_self, refl, select, subst, suc, sym, true, zero, ℕ, ◌&&◌, ◌<◌, ◌==◌, ◌||◌,
  ◌∙◌, ◌∷◌, ◌≡◌, ◌≤◌, ◌⊎◌,
}
use codex_lb_mod.ApiKeys.Types.{Database, Reservation, ReservationItem}
use codex_lb_mod.ApiKeys.Repository.{
  adjust_reserved_usage, update_where, upsert_reservation_item_actual,
}
use codex_lb_mod.ApiKeys.Service.{release_item, release_items}
use codex_lb_mod.ApiKeys.Stale.{
  clear_row, first_of, is_stale_row, release_batch, release_rounds, release_stale_one,
  release_stale_usage_reservations, stale_at, stale_ids, stale_in,
}

module _ (now cutoff : ℕ) where
  -- The items of a reservation change neither the status nor the time of any.
  release_item-stale :
      (id : ℕ) (item : ReservationItem) (db : Database) (j : ℕ)
      → stale_at cutoff (release_item id item db) j ≡ stale_at cutoff db j
  unfolding release_item upsert_reservation_item_actual adjust_reserved_usage update_where
  release_item-stale id item db j = elim (Option-cases (db.reservations id)) [
    | inl gone ↦ rw (gone, update_where) refl
    | inr (r, e) ↦ elim (Bool-cases (id == j)) [
      | inr other ↦ rw (e, update_where, other) refl
      | inl same ↦ rw (e, update_where, same, ← (==_iff id j).0 same, e) refl
    ]
  ]

  release_items-stale :
      (id : ℕ) (items : List ReservationItem) (db : Database) (j : ℕ)
      → stale_at cutoff (release_items id items db) j ≡ stale_at cutoff db j
  unfolding release_items
  release_items-stale id [] db j = refl
  release_items-stale id (item ∷ items) db j =
      release_items-stale id items (release_item id item db) j ∙ release_item-stale id item db j

  clear_row-stale : (r : Reservation) → is_stale_row cutoff (clear_row now r) ≡ false
  clear_row-stale r = refl

  release_stale_one-stale :
      (id : ℕ) (db : Database) (j : ℕ)
      → stale_at cutoff (release_stale_one now cutoff id db) j
        ≡ not (id == j) && stale_at cutoff db j
  unfolding release_stale_one
  release_stale_one-stale id db j = elim (Bool-cases (id == j)) [
    | inr other ↦ rw other (elim (Option-cases (db.reservations id)) [
      | inl gone ↦ rw (release_stale_one, gone) refl
      | inr (r, e) ↦ elim (Bool-cases (is_stale_row cutoff r)) [
        | inr kept ↦ rw (release_stale_one, e, kept) refl
        | inl stale ↦
            rw (release_stale_one, e, stale)
              (release_items-stale id r.items _ j
                ∙ ap (stale_in cutoff) (
                    put_other db.reservations id (clear_row now r) j
                      (λ h. cc ((==_iff id j).1 (sym h), other))))
      ]
    ])
    | inl same ↦
        rw (same, ← (==_iff id j).0 same)
          (elim (Option-cases (db.reservations id)) [
            | inl gone ↦ rw (release_stale_one, gone, gone) refl
            | inr (r, e) ↦ elim (Bool-cases (is_stale_row cutoff r)) [
              | inr kept ↦ rw (release_stale_one, e, kept, e) kept
              | inl stale ↦
                  rw (release_stale_one, e, stale)
                    (release_items-stale id r.items _ id
                      ∙ ap (stale_in cutoff) (put_self db.reservations id (clear_row now r)))
            ]
          ])
  ]

  release_batch-stale :
      (batch : List ℕ) (db : Database) (j : ℕ)
      → stale_at cutoff (release_batch now cutoff batch db) j
        ≡ not (exists (λ i. i == j) batch) && stale_at cutoff db j
  unfolding release_batch
  release_batch-stale [] db j = refl
  release_batch-stale (id ∷ batch) db j =
      release_batch-stale batch (release_stale_one now cutoff id db) j
      ∙ ap (λ b. not (exists (λ i. i == j) batch) && b) (release_stale_one-stale id db j)
      ∙ regroup (exists (λ i. i == j) batch) (id == j) (stale_at cutoff db j)
    where
      regroup : (a b c : Bool) → not a && (not b && c) ≡ not (b || a) && c
      regroup a b c = ground arith

module _ (p p' : ℕ → Bool) (fewer : (j : ℕ) → p' j ≡ true → p j ≡ true) where
  select-fewer : (ids : List ℕ) → length (select p' ids) ≤ length (select p ids)
  select-fewer [] = omega arith
  select-fewer (j ∷ ids) = elim (Bool-cases (p' j)) [
    | inl here ↦ rw (here, fewer j here) (omega (arith, select-fewer ids))
    | inr gone ↦ elim (Bool-cases (p j)) [
      | inl was ↦ rw (gone, was) (omega (arith, select-fewer ids))
      | inr not_there ↦ rw (gone, not_there) (select-fewer ids)
    ]
  ]

  select-strictly :
      (b : ℕ) (ids : List ℕ)
      → In b ids
      → p b ≡ true
      → p' b ≡ false
      → length (select p' ids) < length (select p ids)
  select-strictly b [] m was gone = absurd m.0
  select-strictly b (j ∷ ids) (inl e) was gone = rw (e, gone, was) (omega (arith, select-fewer ids))
  select-strictly b (j ∷ ids) (inr m) was gone = elim (Bool-cases (p' j)) [
    | inl here ↦ rw (here, fewer j here) (omega (arith, select-strictly b ids m was gone))
    | inr dropped ↦ elim (Bool-cases (p j)) [
      | inl there ↦ rw (dropped, there) (omega (arith, select-strictly b ids m was gone))
      | inr not_there ↦ rw (dropped, not_there) (select-strictly b ids m was gone)
    ]
  ]

List-cases : (l : List ℕ) → (l ≡ []) ⊎ ((b : ℕ) × (rest : List ℕ) × (l ≡ b ∷ rest))
List-cases [] = inl refl
List-cases (b ∷ rest) = inr (b, rest, refl)

module _ (now cutoff n : ℕ) (ids : List ℕ) where
  -- The first of a batch is stale before the round and not after it.
  round-shrinks :
      (db : Database) (b : ℕ) (rest : List ℕ)
      → stale_ids cutoff ids db ≡ b ∷ rest
      → length (stale_ids cutoff ids (release_batch now cutoff (b ∷ first_of n rest) db))
        < length (stale_ids cutoff ids db)
  round-shrinks db b rest e =
      let (there, was) = In-select (stale_at cutoff db) b ids (subst (In b) (sym e) (inl refl)) in
      select-strictly (stale_at cutoff db)
        (stale_at cutoff (release_batch now cutoff (b ∷ first_of n rest) db))
        (λ j h. still j (sym (release_batch-stale now cutoff (b ∷ first_of n rest) db j) ∙ h)) b ids
        there was
        (release_batch-stale now cutoff (b ∷ first_of n rest) db b
          ∙ gone (b == b) (exists (λ i. i == b) (first_of n rest)) (stale_at cutoff db b)
              ((==_iff b b).1 refl))
    where
      still :
          (j : ℕ)
          → not (exists (λ i. i == j) (b ∷ first_of n rest)) && stale_at cutoff db j ≡ true
          → stale_at cutoff db j ≡ true
      still j h = right (not (exists (λ i. i == j) (b ∷ first_of n rest))) (stale_at cutoff db j) h
        where
          right : (a c : Bool) → a && c ≡ true → c ≡ true
          right a c k = ground arith

      gone : (a c d : Bool) → a ≡ true → not (a || c) && d ≡ false
      gone a c d k = ground arith

  rounds-drain :
      (fuel : ℕ) (db : Database)
      → length (stale_ids cutoff ids db) < fuel
      → stale_ids cutoff ids (release_rounds fuel now cutoff (suc n) ids db).0 ≡ []
  unfolding release_rounds
  rounds-drain zero db enough = absurd (omega arith)
  rounds-drain (suc fuel) db enough = elim (List-cases (stale_ids cutoff ids db)) [
    | inl e ↦ rw (release_rounds, e, e) refl
    | inr (b, rest, e) ↦
        rw (release_rounds, e)
          (rounds-drain fuel (release_batch now cutoff (b ∷ first_of n rest) db)
            (omega (arith, round-shrinks db b rest e)))
  ]

-- With a batch of at least one reservation, the loop ends before its fuel does: afterwards none of the
-- reservations is both reserved and older than the cutoff.
pub release_stale-drains :
    (now cutoff batch_size : ℕ) (ids : List ℕ) (db : Database)
    → 0 < batch_size
    → stale_ids cutoff ids (release_stale_usage_reservations now cutoff batch_size ids db).0 ≡ []
unfolding release_stale_usage_reservations
release_stale-drains now cutoff zero ids db h = absurd (omega arith)
release_stale-drains now cutoff (suc n) ids db h =
    rounds-drain now cutoff n ids (suc (length ids)) db
      (omega (arith, select-length (stale_at cutoff db) ids))
  where
    select-length : (p : ℕ → Bool) (l : List ℕ) → length (select p l) ≤ length l
    select-length p [] = omega arith
    select-length p (j ∷ l) = elim (Bool-cases (p j)) [
      | inl kept ↦ rw kept (omega (arith, select-length p l))
      | inr dropped ↦ rw dropped (omega (arith, select-length p l))
    ]
