-- ===== src/Contract/Walk.antt =====
-- contract/walk.go. The walker's fields are a state that each call returns; the walker of a branch
-- starts empty and hands its errors and providers to the one above.
pub mod Dynamic
pub mod Names
pub mod Embedded
use flicker.Prelude.{
  ℕ, leb, Bool, true, false, not, ◌&&◌, List, [], ◌∷◌, ◌++◌, Option, none, some, Text, codes,
  text_eq, if◌then◌else◌,
}
use flicker.Contract.Shape.{
  TypeShape, StepKind, literal, constant, provider, dynamic, Step, step, Branches, no_branches,
  branch, Steps, no_steps, more, Provider,
}
use flicker.Contract.GoTypes.{GoType, named, pointer, Named, Universe}
use flicker.Contract.Resolve.{resolve_type_shape}
use flicker.Contract.Syntax.{
  Node, ident, basic_lit, selector, call, index, index_list, func_lit, composite_lit, unary, star,
  return_stmt, other, Nodes, nil, cons, id_of, count, ValueType, one, tuple, TypeAndValue, Package,
}
use flicker.Contract.Detect.{
  flicker_pkg_path, is_flicker_func, unquote, constant_value, resolve_string_arg, extract_provider,
  to_list,
}

abbrev pub append_steps : Steps → Steps → Steps
append_steps no_steps ts = ts
append_steps (more s ss) ts = more s (append_steps ss ts)

abbrev pub append_branches : Branches → Branches → Branches
append_branches no_branches cs = cs
append_branches (branch name ss bs) cs = branch name ss (append_branches bs cs)

-- `executeWalker`, but for the package, which no call changes; `structType` is never read.
pub record Walker : Type 0 where
  pub steps : Steps
  pub providers : List Provider
  pub errors : List Text

abbrev pub new_walker : Walker
new_walker = record { steps = no_steps; providers = []; errors = [] }

abbrev pub add_step : Step → Walker → Walker
add_step s w = record w { steps = append_steps w.steps (more s no_steps) }

abbrev pub add_errors : List Text → Walker → Walker
add_errors es w = record w { errors = w.errors ++ es }

abbrev pub add_providers : List Provider → Walker → Walker
add_providers ps w = record w { providers = w.providers ++ ps }

-- `isWorkflowContextType`.
abbrev is_context_named : Named → Bool
is_context_named n =
    text_eq n.name (codes "WorkflowContext")
    && elim n.pkg_path [ none ↦ false | some path ↦ text_eq path flicker_pkg_path ]

abbrev is_workflow_context_type : Universe → ValueType → Bool
is_workflow_context_type u (one (pointer (named i))) = is_context_named (u.named_of i)
is_workflow_context_type u _ = false

unfoldable pub is_workflow_context_receiver : Package → Node → Bool
is_workflow_context_receiver p e = elim (p.types (id_of e)) [
  | none ↦ false
  | some tv ↦ is_workflow_context_type p.universe tv.type
]

-- The three predicates on the function of a call.
unfoldable pub is_sleep_until_call : Package → Node → Bool
unfolding is_workflow_context_receiver
is_sleep_until_call p (selector i x sel) =
    text_eq sel (codes "SleepUntil") && is_workflow_context_receiver p x
is_sleep_until_call p _ = false

unfoldable pub is_time_now_call : Package → Node → Bool
unfolding is_workflow_context_receiver
is_time_now_call p (selector i (selector j x inner) sel) =
    text_eq sel (codes "Now") && (text_eq inner (codes "Time") && is_workflow_context_receiver p x)
is_time_now_call p _ = false

unfoldable pub is_id_new_call : Package → Node → Bool
unfolding is_workflow_context_receiver
is_id_new_call p (selector i (selector j x inner) sel) =
    text_eq sel (codes "New") && (text_eq inner (codes "ID") && is_workflow_context_receiver p x)
is_id_new_call p _ = false

abbrev strip : Text → Text
strip s = unquote s

abbrev constant_or_dynamic : Option Text → Text × StepKind
constant_or_dynamic (some s) = (strip s, constant)
constant_or_dynamic none = (codes "<dynamic>", dynamic)

unfoldable pub classify_step_name : Package → Node → Text × StepKind
unfolding unquote
classify_step_name p (basic_lit i v) = (strip v, literal)
classify_step_name p e = constant_or_dynamic (constant_value p e)

abbrev first_pointer : List GoType → Option GoType
first_pointer (pointer t ∷ ts) = some t
first_pointer _ = none

abbrev type_param : ValueType → Option GoType
type_param (tuple ts) = first_pointer ts
type_param (one t) = none

unfoldable pub extract_call_type_param : Package → ℕ → Option TypeShape
extract_call_type_param p call_id = elim (p.types call_id) [
  | none ↦ none
  | some tv ↦ elim (type_param tv.type) [
    | none ↦ none
    | some t ↦ some (resolve_type_shape p.universe (some t))
  ]
]

abbrev dynamic_errors : Text × StepKind → List Text
dynamic_errors (name, dynamic) =
    (codes "step name is not a string literal or constant: " ++ name) ∷ []
dynamic_errors _ = []

-- `extractRunStep` and `extractWaitForEventStep`, which differ in the step type alone.
abbrev pub named_step : Package → Text → ℕ → Text × StepKind → Walker → Walker
named_step p step_type i (name, kind) w =
    add_step (step name kind (extract_call_type_param p i) step_type no_branches)
      (add_errors (dynamic_errors (name, kind)) w)

unfoldable pub extract_named_step : Package → Text → ℕ → Nodes → Walker → Walker
unfolding classify_step_name extract_call_type_param
extract_named_step p step_type i (cons ctx (cons wc (cons name rest))) w =
    named_step p step_type i (classify_step_name p name) w
extract_named_step p step_type i _ w = w

unfoldable pub note_provider_call : Package → ℕ → Nodes → Walker → Walker
unfolding extract_provider
note_provider_call p i args w = add_providers (to_list (extract_provider p i args)) w

abbrev context_step : Text → Text → Step
context_step name step_type = step name provider none step_type no_branches

-- The checks of the methods of the context; the walk goes on below such a call.
unfoldable pub note_context_call : Package → Node → Walker → Walker
unfolding is_sleep_until_call is_time_now_call is_id_new_call
note_context_call p f w =
    if is_sleep_until_call p f
    then add_step (context_step (codes "_sleep.until:*") (codes "sleep_until")) w
    else if is_time_now_call p f
    then add_step (context_step (codes "_time.now:*") (codes "provider")) w
    else if is_id_new_call p f
    then add_step (context_step (codes "_id.new:*") (codes "provider")) w
    else w

abbrev pub parallel_step : Branches → Step
parallel_step bs = step (codes "_parallel") provider none (codes "parallel") bs

-- The branches found so far, with the walker.
abbrev pub add_branch : Text → Walker → Branches × Walker → Branches × Walker
add_branch name sub (bs, w) = (
  append_branches bs (branch name sub.steps no_branches),
  add_providers sub.providers (add_errors sub.errors w),
)

abbrev pub add_parallel : Branches × Walker → Walker
add_parallel (bs, w) = add_step (parallel_step bs) w

unfoldable mutual
  unfolding is_flicker_func extract_named_step note_provider_call note_context_call
      resolve_string_arg

  -- `inspectNode`.
  pub inspect_node : Package → Node → Walker → Walker
  inspect_node p (call i f args) w =
      let parallel = extract_parallel_step p args w in
      let below = inspect_nodes p args (inspect_node p f (note_context_call p f w)) in
      if is_flicker_func p f (codes "Parallel") && leb 2 (count args)
      then parallel
      else if is_flicker_func p f (codes "Run") && leb 3 (count args)
      then extract_named_step p (codes "run") i args w
      else if is_flicker_func p f (codes "WaitForEvent") && leb 3 (count args)
      then extract_named_step p (codes "wait_for_event") i args w
      else if is_flicker_func p f (codes "NewProvider")
      then note_provider_call p i args w
      else below
  inspect_node p (ident i x) w = w
  inspect_node p (basic_lit i v) w = w
  inspect_node p (selector i x sel) w = inspect_node p x w
  inspect_node p (index i x j) w = inspect_node p j (inspect_node p x w)
  inspect_node p (index_list i x js) w = inspect_nodes p js (inspect_node p x w)
  inspect_node p (func_lit i type body) w = inspect_nodes p body (inspect_nodes p type w)
  inspect_node p (composite_lit i ns) w = inspect_nodes p ns w
  inspect_node p (unary i x) w = inspect_node p x w
  inspect_node p (star i x) w = inspect_node p x w
  inspect_node p (return_stmt i ns) w = inspect_nodes p ns w
  inspect_node p (other i go_type ns) w = inspect_nodes p ns w

  -- The children of a node, and the statements of a block (`walkBlock`).
  pub inspect_nodes : Package → Nodes → Walker → Walker
  inspect_nodes p nil w = w
  inspect_nodes p (cons n ns) w = inspect_nodes p ns (inspect_node p n w)

  pub extract_parallel_step : Package → Nodes → Walker → Walker
  extract_parallel_step p (cons ctx (cons wc args)) w =
      add_parallel (extract_branches p args (no_branches, w))
  extract_parallel_step p _ w = w

  -- The loop over the branches.
  pub extract_branches : Package → Nodes → Branches × Walker → Branches × Walker
  extract_branches p nil s = s
  extract_branches p (cons arg args) s = extract_branches p args (extract_branch p arg s)

  pub extract_branch : Package → Node → Branches × Walker → Branches × Walker
  extract_branch p (call i f (cons name (cons (func_lit j type body) rest))) s =
      if is_flicker_func p f (codes "NewBranch")
      then add_branch (resolve_string_arg p name) (inspect_nodes p body new_walker) s
      else s
  extract_branch p _ s = s

unfoldable pub walk_execute_body : Package → Nodes → Walker
unfolding inspect_nodes
walk_execute_body p body = inspect_nodes p body new_walker
