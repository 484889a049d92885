-- ===== src/Admission/Leases.antt =====
-- The places of a gate and the leases on it (app/modules/proxy/work_admission.py).
use codex_lb_mod.Base.{
  Bool, Bool-cases, List, Option, Option-cases, [], ap, arith, false, get_elem?, if◌then◌else◌, inl,
  inr, length, none, not, refl, select, some, some_inj, subst, suc, sym, true, zero, ℕ, ◌&&◌, ◌+◌,
  ◌-◌, ◌==◌, ◌∙◌, ◌∷◌, ◌≡◌,
}
use codex_lb_mod.Base.Places.{IsBalanced, start-IsBalanced, takes_one}
use codex_lb_mod.Admission.{
  AdmissionLease, Stage, WorkAdmissionController, acquire, gate, put_back, release, set_gate,
}

-- The controller with all the leases that it gave, the newest first.
pub record Work : Type 0 where
  pub controller : WorkAdmissionController
  pub leases : List AdmissionLease

-- An acquire of a stage, or a release of one of the leases, by its position; also of a lease that
-- was released before.
pub data Event : Type 0 where
  acquires : Stage → Event
  releases : ℕ → Event

abbrev granted : WorkAdmissionController × Option AdmissionLease → List AdmissionLease → Work
granted (c, none) leases = record { controller = c; leases = leases }
granted (c, some lease) leases = record { controller = c; leases = lease ∷ leases }

-- The list with one element replaced.
abbrev set_at : {A : Type 0} → ℕ → A → List A → List A
set_at i a [] = []
set_at zero a (x ∷ xs) = a ∷ xs
set_at (suc i) a (x ∷ xs) = x ∷ set_at i a xs

unfoldable pub work : Event → Work → Work
work (acquires stage) w = granted (acquire stage w.controller) w.leases
work (releases i) w = elim (get_elem? w.leases i) [
  | none ↦ w
  | some lease ↦
      let (c, after) = release lease w.controller in
      record { controller = c; leases = set_at i after w.leases }
]

unfoldable pub work_all : List Event → Work → Work
unfolding work
work_all [] w = w
work_all (e ∷ es) w = work_all es (work e w)

abbrev pub same_stage : Stage → Stage → Bool
same_stage Stage.token_refresh Stage.token_refresh = true
same_stage Stage.websocket_connect Stage.websocket_connect = true
same_stage Stage.response_create Stage.response_create = true
same_stage Stage.compact_response_create Stage.compact_response_create = true
same_stage _ _ = false

abbrev pub is_unreleased : Stage → AdmissionLease → Bool
is_unreleased stage lease = elim lease.lease_semaphore [
  | none ↦ false
  | some s ↦ same_stage s stage && not lease.is_released
]

abbrev pub open_leases : Stage → List AdmissionLease → ℕ
open_leases stage leases = length (select (is_unreleased stage) leases)

gate-set_gate :
    (stage other : Stage) (g : Option ℕ) (c : WorkAdmissionController)
    → gate other (set_gate stage g c) ≡ (if same_stage stage other then g else gate other c)
gate-set_gate stage other g c = ground arith

same_stage-eq : (a b : Stage) → same_stage a b ≡ true → a ≡ b
same_stage-eq a b h = ground arith

abbrev one_more : Option ℕ → Option ℕ
one_more none = none
one_more (some free) = some (free + 1)

put_back-gate :
    (stage other : Stage) (c : WorkAdmissionController)
    → gate other (put_back stage c)
      ≡ (if same_stage stage other then one_more (gate other c) else gate other c)
put_back-gate stage other c = elim (Option-cases (gate stage c)) [
  | inl unlimited ↦ elim (Bool-cases (same_stage stage other)) [
    | inr differ ↦ rw (put_back, unlimited, differ) refl
    | inl same ↦ rw (put_back, same, ← same_stage-eq stage other same, unlimited, unlimited) refl
  ]
  | inr (free, e) ↦ elim (Bool-cases (same_stage stage other)) [
    | inr differ ↦ rw (put_back, e, gate-set_gate stage other (some (free + 1)) c, differ) refl
    | inl same ↦
        rw
          (
            put_back,
            e,
            gate-set_gate stage other (some (free + 1)) c,
            same,
            ← same_stage-eq stage other same,
            e,
          )
          refl
  ]
]

released_shut :
    (stage : Stage) (lease : AdmissionLease)
    → is_unreleased stage (record lease { is_released = true }) ≡ false
released_shut stage lease = ground arith

-- What a release leaves of one stage: the place is free where the lease was open, and it is so once.
release-gate :
    (stage : Stage) (lease : AdmissionLease) (c : WorkAdmissionController)
    → (gate stage (release lease c).0
        ≡ (if is_unreleased stage lease then one_more (gate stage c) else gate stage c))
      × (is_unreleased stage (release lease c).1 ≡ false)
unfolding release
release-gate stage lease c = elim (Option-cases lease.lease_semaphore) [
  | inl free ↦ rw (release, free, free) (refl, refl)
  | inr (s, e) ↦ elim (Bool-cases lease.is_released) [
    | inl done ↦ elim (Bool-cases (same_stage s stage)) [
      | inl same ↦ rw (release, e, done, e, same) (refl, refl)
      | inr differ ↦ rw (release, e, done, e, differ) (refl, refl)
    ]
    | inr held ↦ elim (Bool-cases (same_stage s stage)) [
      | inl same ↦
          rw (release, e, held, put_back-gate s stage c, same) (refl, released_shut stage lease)
      | inr differ ↦
          rw (release, e, held, put_back-gate s stage c, differ) (refl, released_shut stage lease)
    ]
  ]
]

open_leases-set_at :
    (stage : Stage) (i : ℕ) (lease after : AdmissionLease) (leases : List AdmissionLease)
    → get_elem? leases i ≡ some lease
    → is_unreleased stage after ≡ false
    → open_leases stage leases ≡ (
        if is_unreleased stage lease
        then 1 + open_leases stage (set_at i after leases)
        else open_leases stage (set_at i after leases))
open_leases-set_at stage i lease after [] h k = cc
open_leases-set_at stage zero lease after (x ∷ xs) h k = ground (arith, some_inj h)
open_leases-set_at stage (suc i) lease after (x ∷ xs) h k =
    ground (arith, open_leases-set_at stage i lease after xs h k)

acquire-IsBalanced :
    (limit : Option ℕ) (stage other : Stage) (c : WorkAdmissionController)
    (leases : List AdmissionLease)
    → IsBalanced limit (gate other c) (open_leases other leases)
    → IsBalanced limit
        (gate other (granted (acquire stage c) leases).controller)
        (open_leases other (granted (acquire stage c) leases).leases)
unfolding acquire
acquire-IsBalanced limit stage other c leases h = elim (Option-cases (gate stage c)) [
  | inl free ↦ rw (acquire, free) h
  | inr (free, e) ↦ elim (Bool-cases (free == 0)) [
    | inl full ↦ rw (acquire, e, full) h
    | inr room ↦ elim (Bool-cases (same_stage stage other)) [
      | inr differ ↦ rw (acquire, e, room, gate-set_gate stage other (some (free - 1)) c, differ) h
      | inl same ↦
          rw (acquire, e, room, gate-set_gate stage other (some (free - 1)) c, same)
            (takes_one limit free (open_leases other leases) room (
              subst (λ g. IsBalanced limit g (open_leases other leases))
                (ap (λ s. gate s c) (sym (same_stage-eq stage other same)) ∙ e) h))
    ]
  ]
]

takes_back :
    (limit gate_places : Option ℕ) (n : ℕ)
    → IsBalanced limit gate_places (1 + n)
    → IsBalanced limit (one_more gate_places) n
takes_back none none n h = tt
takes_back none (some free) n h = h
takes_back (some limit) none n h = h
takes_back (some limit) (some free) n h = omega arith

release-IsBalanced :
    (limit : Option ℕ) (stage : Stage) (i : ℕ) (lease : AdmissionLease)
    (c : WorkAdmissionController) (leases : List AdmissionLease)
    → get_elem? leases i ≡ some lease
    → IsBalanced limit (gate stage c) (open_leases stage leases)
    → IsBalanced limit
        (gate stage (release lease c).0)
        (open_leases stage (set_at i (release lease c).1 leases))
release-IsBalanced limit stage i lease c leases at h =
    let freed = release-gate stage lease c in
    let fewer = open_leases-set_at stage i lease (release lease c).1 leases at freed.1 in
    let rest = open_leases stage (set_at i (release lease c).1 leases) in
    elim (Bool-cases (is_unreleased stage lease)) [
      | inr shut ↦
          subst (λ g. IsBalanced limit g rest) (sym (rw shut at freed.0))
            (subst (IsBalanced limit (gate stage c)) (rw shut at fewer) h)
      | inl held ↦
          subst (λ g. IsBalanced limit g rest) (sym (rw held at freed.0))
            (takes_back limit (gate stage c) rest
              (subst (IsBalanced limit (gate stage c)) (rw held at fewer) h))
    ]

work-IsBalanced :
    (limit : Option ℕ) (stage : Stage) (e : Event) (w : Work)
    → IsBalanced limit (gate stage w.controller) (open_leases stage w.leases)
    → IsBalanced limit (gate stage (work e w).controller) (open_leases stage (work e w).leases)
unfolding work
work-IsBalanced limit stage (acquires other) w h =
    acquire-IsBalanced limit other stage w.controller w.leases h
work-IsBalanced limit stage (releases i) w h = elim (Option-cases (get_elem? w.leases i)) [
  | inl missing ↦ rw (work, missing) h
  | inr (lease, at) ↦
      rw (work, at) (release-IsBalanced limit stage i lease w.controller w.leases at h)
]

work_all-IsBalanced :
    (limit : Option ℕ) (stage : Stage) (es : List Event) (w : Work)
    → IsBalanced limit (gate stage w.controller) (open_leases stage w.leases)
    → IsBalanced limit
        (gate stage (work_all es w).controller)
        (open_leases stage (work_all es w).leases)
unfolding work_all
work_all-IsBalanced limit stage [] w h = h
work_all-IsBalanced limit stage (e ∷ es) w h =
    work_all-IsBalanced limit stage es (work e w) (work-IsBalanced limit stage e w h)

-- However work is admitted and leases are released, some of them more than once, the free places of a
-- gate and its leases that are not released add up to its limit: a second release gives nothing back.
pub lease-IsBalanced :
    (stage : Stage) (es : List Event) (c : WorkAdmissionController)
    → IsBalanced
        (gate stage c)
        (gate stage (work_all es (record { controller = c; leases = [] })).controller)
        (open_leases stage (work_all es (record { controller = c; leases = [] })).leases)
lease-IsBalanced stage es c =
    work_all-IsBalanced (gate stage c) stage es (record { controller = c; leases = [] })
      (start-IsBalanced (gate stage c))
