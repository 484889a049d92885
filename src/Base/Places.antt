-- ===== src/Base/Places.antt =====
-- The balance of a limit with its free places and those taken; without a limit nothing is counted.
use Prim.Native.Nat.{ℕ, suc, ◌+◌, ◌-◌}
use mathlib.Core.Path.{◌≡◌}
use mathlib.Core.Bool.{false}
use mathlib.Core.Option.{Option, none, some}
use native.Mathlib.Omega.{arith}
use codex_lb_mod.Base.Tests.{◌==◌}

abbrev pub IsBalanced : Option ℕ → Option ℕ → ℕ → Type 0
IsBalanced none none taken = Unit {0}
IsBalanced none (some free) taken = ⊥
IsBalanced (some limit) none taken = ⊥
IsBalanced (some limit) (some free) taken = free + taken ≡ limit

pub start-IsBalanced : (limit : Option ℕ) → IsBalanced limit limit 0
start-IsBalanced none = tt
start-IsBalanced (some limit) = omega arith

pub takes_one :
    (limit : Option ℕ) (free taken : ℕ)
    → (free == 0) ≡ false
    → IsBalanced limit (some free) taken
    → IsBalanced limit (some (free - 1)) (suc taken)
takes_one none free taken h k = k
takes_one (some limit) free taken h k = ground arith

pub gives_one :
    (limit : Option ℕ) (free taken : ℕ)
    → IsBalanced limit (some free) (suc taken)
    → IsBalanced limit (some (free + 1)) taken
gives_one none free taken k = k
gives_one (some limit) free taken k = omega arith

pub without_limit : (limit : Option ℕ) (m n : ℕ) → IsBalanced limit none m → IsBalanced limit none n
without_limit none m n h = tt
without_limit (some limit) m n h = h
