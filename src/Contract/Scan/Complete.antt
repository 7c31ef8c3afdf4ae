-- ===== src/Contract/Scan/Complete.antt =====
-- When the contract of a workflow is complete.
use flicker.Prelude.{ℕ, ◌≡◌}
use flicker.Contract.GoTypes.{Fields}
use flicker.Contract.Syntax.{Nodes, Package}
use flicker.Contract.Detect.{Found, found, DefineCall, find_execute_method}
use flicker.Contract.Walk.Dynamic.{dynamic_steps}
use flicker.Contract.Scan.{with_factory}

abbrev second : Fields × ℕ → ℕ
second (fs, i) = i

module _ (p : Package) (d : DefineCall) where
  -- What it takes: the factory builds a named struct, that type has an `Execute` method, and every
  -- step of it has a name that can be read.
  abbrev Complete : Found (Fields × ℕ) → Type 0
  Complete r =
      (f : Fields × ℕ) × (body : Nodes) × (r ≡ found f)
      × (find_execute_method p (p.universe.named_of f.1).name ≡ found body)
      × (dynamic_steps (with_factory p d r).steps ≡ 0)
