-- ===== src/Contract/Scan.antt =====
-- contract/scan.go. `packages.Load` is the argument `loaded`, and `sort.Slice` the argument
-- `sort_slice`, which is given the test of the order.
pub mod Complete
use flicker.Prelude.{ℕ, not, Bool, List, [], ◌∷◌, ◌++◌, Option, none, some, Text, codes, text_le}
use flicker.Contract.Shape.{Contract, Steps, no_steps, Provider}
use flicker.Contract.GoTypes.{Fields}
use flicker.Contract.Resolve.{resolve_type_shape}
use flicker.Contract.Syntax.{Node, Nodes, Package}
use flicker.Contract.Detect.{
  Found, found, missing, DefineCall, detect_defines, resolve_factory, find_execute_method,
  extract_factory_providers,
}
use flicker.Contract.Walk.{Walker, walk_execute_body}

abbrev contract_of : Package → DefineCall → Steps → List Provider → List Text → Contract
contract_of p d steps providers errors = record {
  name = d.name;
  version = d.version;
  request_type = resolve_type_shape p.universe d.req_type;
  response_type = resolve_type_shape p.universe d.resp_type;
  steps = steps;
  providers = providers;
  errors = errors;
}

abbrev failed_contract : Package → DefineCall → Text → Contract
failed_contract p d e = contract_of p d no_steps [] (e ∷ [])

abbrev walked_contract : Package → DefineCall → Walker → Contract
walked_contract p d w =
    contract_of p d w.steps (extract_factory_providers p d.factory_arg ++ w.providers) w.errors

abbrev with_body : Package → DefineCall → Found Nodes → Contract
with_body p d (missing e) = failed_contract p d e
with_body p d (found body) = walked_contract p d (walk_execute_body p body)

abbrev with_factory : Package → DefineCall → Found (Fields × ℕ) → Contract
with_factory p d (missing e) = failed_contract p d e
with_factory p d (found (_, i)) = with_body p d (find_execute_method p (p.universe.named_of i).name)

unfoldable pub build_contract : Package → DefineCall → Contract
unfolding resolve_factory find_execute_method walk_execute_body
build_contract p d = with_factory p d (resolve_factory p d.factory_arg)

unfoldable pub build_all : Package → List DefineCall → List Contract
unfolding build_contract
build_all p [] = []
build_all p (d ∷ ds) = build_contract p d ∷ build_all p ds

unfoldable pub package_errors : List Package → List Text
package_errors [] = []
package_errors (p ∷ ps) = p.errors ++ package_errors ps

unfoldable pub package_contracts : List Package → List Contract
unfolding build_all detect_defines
package_contracts [] = []
package_contracts (p ∷ ps) = build_all p (detect_defines p) ++ package_contracts ps

-- `Name + ":" + Version`, and `ki < kj`.
abbrev pub key_of : Contract → Text
key_of c = c.name ++ (b':' ∷ c.version)

abbrev pub less : Contract → Contract → Bool
less c d = not (text_le (key_of d) (key_of c))

pub data BuildError : Type 0 where
  load_packages : Text → BuildError
  package_errors_found : List Text → BuildError

-- The contracts, or the error.
pub data Built : Type 0 where
  contracts : List Contract → Built
  failed : BuildError → Built

abbrev unless_errors : List Text → List Contract → Built
unless_errors [] cs = contracts cs
unless_errors (e ∷ es) cs = failed (package_errors_found (e ∷ es))

unfoldable pub build_contracts :
    ((Contract → Contract → Bool) → List Contract → List Contract) → Found (List Package) → Built
unfolding package_errors package_contracts
build_contracts sort_slice (missing e) = failed (load_packages e)
build_contracts sort_slice (found ps) =
    unless_errors (package_errors ps) (sort_slice less (package_contracts ps))
