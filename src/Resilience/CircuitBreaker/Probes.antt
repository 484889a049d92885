-- ===== src/Resilience/CircuitBreaker/Probes.antt =====
-- Calls of several tasks through one breaker (app/core/resilience/circuit_breaker.py): at most one
-- of them is a probe.
use codex_lb_mod.Base.{Bool, List, [], arith, false, refl, suc, true, ℕ, ◌++◌, ◌+◌, ◌∷◌, ◌≡◌, ◌≤◌}
use codex_lb_mod.Resilience.CircuitBreaker.{
  CallResult, CircuitBreaker, admitted, cancelled, pre_call_check, raised, record_result,
  release_half_open_probe, succeeded,
}

-- A breaker with the calls that have passed `pre_call_check` and have not released yet, each with
-- whether it is a probe.
pub record Pending : Type 0 where
  pub breaker : CircuitBreaker
  pub calls : List Bool

-- The calls left of and right of the one that moves.
pub data Step : Pending → Pending → Type 0 where
  enter :
      {b b' : CircuitBreaker} {calls : List Bool} (now : ℕ) (is_probe : Bool)
      → pre_call_check now b ≡ (b', admitted is_probe)
      → Step
          (record { breaker = b; calls = calls })
          (record { breaker = b'; calls = is_probe ∷ calls })
  report :
      {b : CircuitBreaker} {calls : List Bool} (now : ℕ) (r : CallResult)
      → Step
          (record { breaker = b; calls = calls })
          (record { breaker = record_result now r b; calls = calls })
  leave :
      {b : CircuitBreaker} (before after : List Bool)
      → Step
          (record { breaker = b; calls = before ++ false ∷ after })
          (record { breaker = b; calls = before ++ after })
  leave_probe :
      {b : CircuitBreaker} (before after : List Bool)
      → Step
          (record { breaker = b; calls = before ++ true ∷ after })
          (record { breaker = release_half_open_probe b; calls = before ++ after })

pub data Reach (p : Pending) : Pending → Type 0 where
  here : Reach p p
  next : {q r : Pending} → Reach p q → Step q r → Reach p r

abbrev pub probes : List Bool → ℕ
probes [] = 0
probes (true ∷ calls) = suc (probes calls)
probes (false ∷ calls) = probes calls

abbrev pub flag : Bool → ℕ
flag true = 1
flag false = 0

-- The flag of the breaker counts the probes among the calls.
abbrev IsCounted : Pending → Type 0
IsCounted p = probes p.calls ≡ flag p.breaker.half_open_probe_in_flight

probes-append : (xs ys : List Bool) → probes (xs ++ ys) ≡ probes xs + probes ys
probes-append [] ys = omega arith
probes-append (true ∷ xs) ys = omega (arith, probes-append xs ys)
probes-append (false ∷ xs) ys = probes-append xs ys

enter-flag :
    (now : ℕ) (b b' : CircuitBreaker) (is_probe : Bool)
    → pre_call_check now b ≡ (b', admitted is_probe)
    → flag b'.half_open_probe_in_flight ≡ flag is_probe + flag b.half_open_probe_in_flight
unfolding pre_call_check
enter-flag now b b' is_probe h = ground arith

record_result-flag :
    (now : ℕ) (r : CallResult) (b : CircuitBreaker)
    → (record_result now r b).half_open_probe_in_flight ≡ b.half_open_probe_in_flight
unfolding record_result
record_result-flag now succeeded b = ground arith
record_result-flag now cancelled b = refl
record_result-flag now (raised exc) b = ground arith

flag-le : (b : Bool) → flag b ≤ 1
flag-le b = ground arith

probes-cons : (b : Bool) (xs : List Bool) → probes (b ∷ xs) ≡ flag b + probes xs
probes-cons true xs = omega arith
probes-cons false xs = omega arith

Step-IsCounted : {p q : Pending} → Step p q → IsCounted p → IsCounted q
unfolding release_half_open_probe
Step-IsCounted (enter {b} {b'} {calls} now is_probe h) c =
    omega (arith, enter-flag now b b' is_probe h, probes-cons is_probe calls)
Step-IsCounted (report {b} now r) c = rw (record_result-flag now r b) c
Step-IsCounted (leave before after) c =
    omega (arith, probes-append before after, probes-append before (false ∷ after))
Step-IsCounted (leave_probe {b} before after) c = omega (
  arith,
  probes-append before after,
  probes-append before (true ∷ after),
  flag-le b.half_open_probe_in_flight,
)

Reach-IsCounted : {p q : Pending} → IsCounted p → Reach p q → IsCounted q
Reach-IsCounted c here = c
Reach-IsCounted c (next r st) = Step-IsCounted st (Reach-IsCounted c r)

-- From a breaker with no call and no probe, every interleaving of calls has at most one probe among
-- them, and the breaker's flag is set exactly while there is one.
pub one_probe :
    (b : CircuitBreaker) {q : Pending}
    → b.half_open_probe_in_flight ≡ false
    → Reach (record { breaker = b; calls = [] }) q
    → (probes q.calls ≤ 1) × (probes q.calls ≡ flag q.breaker.half_open_probe_in_flight)
one_probe b {q} h r =
    let c : IsCounted q = Reach-IsCounted (ground arith) r in
    (omega (arith, flag-le q.breaker.half_open_probe_in_flight), c)
