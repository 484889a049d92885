-- ===== src/ApiKeys/Service/Lifecycle.antt =====
-- A reservation is settled or released once (app/modules/api_keys/service.py).
use codex_lb_mod.Base.{
  Bool, Bool-cases, Option, Option-cases, arith, false, inl, inr, none, refl, some, true, ℕ, ◌≡◌,
}
use codex_lb_mod.ApiKeys.Types.{
  Database, Reservation, ReservationStatus, failed, finalized, released, reserved,
  same_reservation_status, settling,
}
use codex_lb_mod.ApiKeys.Repository.{
  settle_usage_reservation, transition_usage_reservation_status, update_last_used, update_where,
}
use codex_lb_mod.ApiKeys.Budget.{CostFunction}
use codex_lb_mod.ApiKeys.Service.{
  Usage, actual_of, release_items, release_usage_reservation, settle_claimed, settle_items,
  settle_reservation, usage_cost,
}

-- The calls that end a reservation, at a time and for a usage.
pub data Closing : Type 0 where
  finalize fail : ℕ → Usage → Closing
  release : ℕ → Closing

unfoldable pub close : CostFunction → Closing → ℕ → Database → Database
close cost (finalize now u) rid db = settle_reservation cost now finalized rid u db
close cost (fail now u) rid db = settle_reservation cost now failed rid u db
close cost (release now) rid db = release_usage_reservation now rid db

-- The reservation is missing or no longer reserved.
abbrev is_reserved : Option Reservation → Bool
is_reserved none = false
is_reserved (some r) = same_reservation_status r.status reserved

settle-no_op :
    (cost : CostFunction) (now rid : ℕ) (status : ReservationStatus) (u : Usage) (db : Database)
    → is_reserved (db.reservations rid) ≡ false
    → settle_reservation cost now status rid u db ≡ db
unfolding settle_reservation
settle-no_op cost now rid status u db h = ground arith

release-no_op :
    (now rid : ℕ) (db : Database)
    → is_reserved (db.reservations rid) ≡ false
    → release_usage_reservation now rid db ≡ db
unfolding release_usage_reservation
release-no_op now rid db h = ground arith

settled-status :
    (now : ℕ) (db : Database) (rid : ℕ) (status : ReservationStatus) (a b c d : Option ℕ)
    → same_reservation_status status reserved ≡ false
    → is_reserved ((settle_usage_reservation now db rid status a b c d).reservations rid) ≡ false
unfolding settle_usage_reservation update_where
settled-status now db rid status a b c d h = ground arith

last_used-reservations :
    (db : Database) (key now : ℕ) → (update_last_used db key now).reservations ≡ db.reservations
unfolding update_last_used
last_used-reservations db key now = refl

settle_claimed-closes :
    (cost : CostFunction) (now rid : ℕ) (status : ReservationStatus) (u : Usage) (r : Reservation)
    (db : Database)
    → same_reservation_status status reserved ≡ false
    → is_reserved ((settle_claimed cost now status rid u r db).reservations rid) ≡ false
unfolding settle_claimed
settle_claimed-closes cost now rid status u r db h =
    rw
      (last_used-reservations
        (settle_usage_reservation now (settle_items rid (actual_of cost u) r.items db) rid status
          u.used_input u.used_output u.used_cached (some (usage_cost cost u)))
        r.api_key_id now)
      (settled-status now (settle_items rid (actual_of cost u) r.items db) rid status u.used_input
        u.used_output u.used_cached (some (usage_cost cost u)) h)

transition-claims :
    (now : ℕ) (db : Database) (rid : ℕ) (r : Reservation) (new : ReservationStatus)
    → db.reservations rid ≡ some r
    → same_reservation_status r.status reserved ≡ true
    → (transition_usage_reservation_status now db rid reserved new).1 ≡ true
unfolding transition_usage_reservation_status update_where
transition-claims now db rid r new found h = ground arith

settle-closes :
    (cost : CostFunction) (now rid : ℕ) (status : ReservationStatus) (u : Usage) (db : Database)
    → same_reservation_status status reserved ≡ false
    → is_reserved ((settle_reservation cost now status rid u db).reservations rid) ≡ false
unfolding settle_reservation
settle-closes cost now rid status u db h = elim (Option-cases (db.reservations rid)) [
  | inl missing ↦ rw (settle-no_op cost now rid status u db (rw missing refl)) (rw missing refl)
  | inr (r, found) ↦ elim (Bool-cases (same_reservation_status r.status reserved)) [
    | inr closed ↦ rw (settle-no_op cost now rid status u db (rw found closed)) (rw found closed)
    | inl open_one ↦
        rw
          (
            settle_reservation,
            found,
            open_one,
            transition-claims now db rid r settling found open_one,
          )
          (settle_claimed-closes cost now rid status u r
            (transition_usage_reservation_status now db rid reserved settling).0 h)
  ]
]

release-closes :
    (now rid : ℕ) (db : Database)
    → is_reserved ((release_usage_reservation now rid db).reservations rid) ≡ false
unfolding release_usage_reservation
release-closes now rid db = elim (Option-cases (db.reservations rid)) [
  | inl missing ↦ rw (release-no_op now rid db (rw missing refl)) (rw missing refl)
  | inr (r, found) ↦ elim (Bool-cases (same_reservation_status r.status reserved)) [
    | inr closed ↦ rw (release-no_op now rid db (rw found closed)) (rw found closed)
    | inl open_one ↦
        rw
          (
            release_usage_reservation,
            found,
            open_one,
            transition-claims now db rid r released found open_one,
          )
          (settled-status now
            (release_items rid r.items
              (transition_usage_reservation_status now db rid reserved released).0)
            rid released none none none none refl)
  ]
]

close-closes :
    (cost : CostFunction) (a : Closing) (rid : ℕ) (db : Database)
    → is_reserved ((close cost a rid db).reservations rid) ≡ false
unfolding close
close-closes cost (finalize now u) rid db = settle-closes cost now rid finalized u db refl
close-closes cost (fail now u) rid db = settle-closes cost now rid failed u db refl
close-closes cost (release now) rid db = release-closes now rid db

close-no_op :
    (cost : CostFunction) (b : Closing) (rid : ℕ) (db : Database)
    → is_reserved (db.reservations rid) ≡ false
    → close cost b rid db ≡ db
unfolding close
close-no_op cost (finalize now u) rid db h = settle-no_op cost now rid finalized u db h
close-no_op cost (fail now u) rid db h = settle-no_op cost now rid failed u db h
close-no_op cost (release now) rid db h = release-no_op now rid db h

-- A reservation is ended once: whichever of finalize, fail and release comes first, a second call of
-- any of the three on the same reservation leaves the whole database as it is.
pub close_twice :
    (cost : CostFunction) (a b : Closing) (rid : ℕ) (db : Database)
    → close cost b rid (close cost a rid db) ≡ close cost a rid db
close_twice cost a b rid db =
    close-no_op cost b rid (close cost a rid db) (close-closes cost a rid db)
