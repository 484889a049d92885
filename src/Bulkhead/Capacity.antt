-- ===== src/Bulkhead/Capacity.antt =====
-- No lane serves more requests than its limit (app/core/resilience/bulkhead.py).
use Prim.Native.String.{String}
use text.Mathlib.Text.{starts_with, ◌==◌ as str_eq}
use codex_lb_mod.Base.{
  Bool, Bool-cases, List, Option, Option-cases, [], ap, arith, false, if◌then◌else◌, inl, inr, none,
  refl, some, some_inj, subst, suc, sym, true, ℕ, ◌+◌, ◌-◌, ◌==◌, ◌||◌, ◌∙◌, ◌∷◌, ◌≡◌,
}
use codex_lb_mod.Base.Places.{IsBalanced, gives_one, start-IsBalanced, takes_one, without_limit}
use codex_lb_mod.Bulkhead.{
  Bulkhead, Decision, Lane, admitted, enter, lane_of, leave, places, set_places, take_place,
}

abbrev same_lane : Lane → Lane → Bool
same_lane Lane.proxy_http Lane.proxy_http = true
same_lane Lane.proxy_websocket Lane.proxy_websocket = true
same_lane Lane.proxy_compact Lane.proxy_compact = true
same_lane Lane.dashboard Lane.dashboard = true
same_lane _ _ = false

-- The requests in the app, by their lane, and the lanes' places.
pub record Serving : Type 0 where
  pub lanes : Bulkhead
  pub running : List Lane

abbrev pub running_in : Lane → List Lane → ℕ
running_in lane [] = 0
running_in lane (l ∷ ls) =
    let rest = running_in lane ls in if same_lane l lane then suc rest else rest

-- A request arrives, or one that runs ends.
pub data Event : Type 0 where
  arrives : Bool → String → String → Event
  ends : Lane → Event

abbrev pub start : Bulkhead × Decision → List Lane → Serving
start (b, admitted lane) running = record { lanes = b; running = lane ∷ running }
start (b, _) running = record { lanes = b; running = running }

-- The list without one request of a lane.
unfoldable pub finish : Lane → List Lane → Option (List Lane)
finish lane [] = none
finish lane (l ∷ ls) =
    let rest = finish lane ls in
    if same_lane l lane then some ls else elim rest [ none ↦ none | some r ↦ some (l ∷ r) ]

unfoldable pub serve : Event → Serving → Serving
unfolding finish
serve (arrives pressure scope_type path) s =
    start (enter pressure scope_type path s.lanes) s.running
serve (ends lane) s = elim (finish lane s.running) [
  | none ↦ s
  | some rest ↦ record { lanes = leave lane s.lanes; running = rest }
]

unfoldable pub serve_all : List Event → Serving → Serving
serve_all [] s = s
serve_all (e ∷ es) s = serve_all es (serve e s)

places-set_places :
    (lane other : Lane) (p : Option ℕ) (b : Bulkhead)
    → places other (set_places lane p b) ≡ (if same_lane lane other then p else places other b)
places-set_places lane other p b = ground arith

same_lane-eq : (a b : Lane) → same_lane a b ≡ true → a ≡ b
same_lane-eq a b h = ground arith

take_place-IsBalanced :
    (limit : Option ℕ) (lane other : Lane) (b : Bulkhead) (running : List Lane)
    → IsBalanced limit (places other b) (running_in other running)
    → IsBalanced limit
        (places other (start (take_place lane b) running).lanes)
        (running_in other (start (take_place lane b) running).running)
unfolding take_place
take_place-IsBalanced limit lane other b running h = elim (Option-cases (places lane b)) [
  | inl unlimited ↦ rw (take_place, unlimited) h
  | inr (free, e) ↦ elim (Bool-cases (free == 0)) [
    | inl full ↦ rw (take_place, e, full) h
    | inr room ↦ elim (Bool-cases (same_lane lane other)) [
      | inr differ ↦
          rw (take_place, e, room, places-set_places lane other (some (free - 1)) b, differ) h
      | inl same ↦
          rw (take_place, e, room, places-set_places lane other (some (free - 1)) b, same)
            (takes_one limit free (running_in other running) room (
              subst (λ p. IsBalanced limit p (running_in other running))
                (ap (λ l. places l b) (sym (same_lane-eq lane other same)) ∙ e) h))
    ]
  ]
]

enter-IsBalanced :
    (pressure : Bool) (scope_type path : String) (limit : Option ℕ) (other : Lane) (b : Bulkhead)
    (running : List Lane)
    → IsBalanced limit (places other b) (running_in other running)
    → IsBalanced limit
        (places other (start (enter pressure scope_type path b) running).lanes)
        (running_in other (start (enter pressure scope_type path b) running).running)
unfolding enter
enter-IsBalanced pressure scope_type path limit other b running h =
    elim (Bool-cases (str_eq scope_type "http" || str_eq scope_type "websocket")) [
      | inr foreign ↦ rw (enter, foreign) h
      | inl known ↦ elim (Bool-cases (starts_with path "/health")) [
        | inl health ↦ rw (enter, known, health) h
        | inr served ↦ elim (Bool-cases pressure) [
          | inl high ↦ rw (enter, known, served, high) h
          | inr low ↦
              rw (enter, known, served, low)
                (take_place-IsBalanced limit (lane_of scope_type path) other b running h)
        ]
      ]
    ]

finish-running_in :
    (lane other : Lane) (running rest : List Lane)
    → finish lane running ≡ some rest
    → running_in other running
      ≡ (if same_lane lane other then suc (running_in other rest) else running_in other rest)
unfolding finish
finish-running_in lane other [] rest h = cc
finish-running_in lane other (l ∷ ls) rest h = elim (Bool-cases (same_lane l lane)) [
  | inl same ↦
      subst
        (λ r.
          running_in other (l ∷ ls)
          ≡ (if same_lane lane other then suc (running_in other r) else running_in other r))
        (some_inj (rw (finish, same) at h)) (rw (same_lane-eq l lane same) refl)
  | inr differ ↦ elim (Option-cases (finish lane ls)) [
    | inl missing ↦ cc (rw (finish, differ, missing) at h)
    | inr (r, found) ↦
        subst
          (λ r.
            running_in other (l ∷ ls)
            ≡ (if same_lane lane other then suc (running_in other r) else running_in other r))
          (some_inj (rw (finish, differ, found) at h))
          (ground (arith, finish-running_in lane other ls r found))
  ]
]

leave-IsBalanced :
    (limit : Option ℕ) (lane other : Lane) (b : Bulkhead) (running rest : List Lane)
    → finish lane running ≡ some rest
    → IsBalanced limit (places other b) (running_in other running)
    → IsBalanced limit (places other (leave lane b)) (running_in other rest)
unfolding leave
leave-IsBalanced limit lane other b running rest h k = elim (Option-cases (places lane b)) [
  | inl unlimited ↦ elim (Bool-cases (same_lane lane other)) [
    | inr differ ↦
        rw (leave, unlimited) (rw (finish-running_in lane other running rest h, differ) at k)
    | inl same ↦
        rw (leave, unlimited, ← same_lane-eq lane other same, unlimited)
          (without_limit limit (running_in lane running) (running_in lane rest)
            (rw (← same_lane-eq lane other same, unlimited) at k))
  ]
  | inr (free, e) ↦ elim (Bool-cases (same_lane lane other)) [
    | inr differ ↦
        rw (leave, e, places-set_places lane other (some (free + 1)) b, differ)
          (rw (finish-running_in lane other running rest h, differ) at k)
    | inl same ↦
        rw (leave, e, places-set_places lane other (some (free + 1)) b, same)
          (gives_one limit free (running_in other rest) (
            rw
              (
                ← same_lane-eq lane other same,
                e,
                same_lane-eq lane other same,
                finish-running_in lane other running rest h,
                same,
              )
              at k))
  ]
]

serve-IsBalanced :
    (limit : Option ℕ) (lane : Lane) (e : Event) (s : Serving)
    → IsBalanced limit (places lane s.lanes) (running_in lane s.running)
    → IsBalanced limit (places lane (serve e s).lanes) (running_in lane (serve e s).running)
unfolding serve
serve-IsBalanced limit lane (arrives pressure scope_type path) s h =
    enter-IsBalanced pressure scope_type path limit lane s.lanes s.running h
serve-IsBalanced limit lane (ends other) s h = elim (Option-cases (finish other s.running)) [
  | inl missing ↦ rw (serve, missing) h
  | inr (rest, found) ↦
      rw (serve, found) (leave-IsBalanced limit other lane s.lanes s.running rest found h)
]

-- However requests arrive and end, from an empty start, the free places of a lane and its requests
-- that run add up to its limit, so that no lane serves more than that and no place is lost.
pub lane-IsBalanced :
    (lane : Lane) (es : List Event) (b : Bulkhead)
    → IsBalanced
        (places lane b)
        (places lane (serve_all es (record { lanes = b; running = [] })).lanes)
        (running_in lane (serve_all es (record { lanes = b; running = [] })).running)
unfolding serve_all
lane-IsBalanced lane es b =
    go es (record { lanes = b; running = [] }) (start-IsBalanced (places lane b))
  where
    go :
        (es : List Event) (s : Serving)
        → IsBalanced (places lane b) (places lane s.lanes) (running_in lane s.running)
        → IsBalanced
            (places lane b)
            (places lane (serve_all es s).lanes)
            (running_in lane (serve_all es s).running)
    go [] s h = h
    go (e ∷ rest) s h = go rest (serve e s) (serve-IsBalanced (places lane b) lane e s h)
