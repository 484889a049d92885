-- ===== src/Base/Tables.antt =====
-- Tables by key: a database table by its primary key, or a dictionary.
use Prim.Native.Nat.{ℕ}
use mathlib.Core.Path.{◌≡◌}
use mathlib.Core.Logic.{◌≢◌}
use mathlib.Core.Option.{Option, some}
use native.Mathlib.Omega.{arith}
use codex_lb_mod.Base.Tests.{if◌then◌else◌, ◌==◌}

abbrev pub Table : Type 0 → Type 0
Table A = ℕ → Option A

abbrev pub put : {A : Type 0} → Table A → ℕ → A → Table A
put t k a j = if k == j then some a else t j

module _ {A : Type 0} (t : Table A) (k : ℕ) (a : A) where
  pub put_self : put t k a k ≡ some a
  put_self = ground arith

  pub put_other : (j : ℕ) → j ≢ k → put t k a j ≡ t j
  put_other j h = ground arith
