-- ===== src/Tests/Contract.antt =====
-- A package that declares one workflow, read by the analysis.
use flicker.Prelude.{
  ℕ, zero, suc, ◌+◌, ◌<◌, ◌==◌, ◌≡◌, refl, true, [], ◌∷◌, Option, none, some, arith, Text, codes,
  text_eq, length, if◌then◌else◌,
}
use flicker.Contract.GoTypes.{
  named, struct, pointer, basic, no_fields, field, Named, Universe, Within, IsClosed,
}
use flicker.Contract.Resolve.{resolve_impl, resolve_named, enough, resolve_type_shape}
use flicker.Contract.Resolve.Shaped.{IsShaped, resolve_type_shape-IsShaped}
use flicker.Contract.Resolve.Fuel.{resolve_type_shape_lem}
use flicker.Contract.Syntax.{
  Node, ident, basic_lit, selector, call, func_lit, composite_lit, unary, star, return_stmt, Nodes,
  nil, cons, func_decl, other_decl, one, TypeAndValue, pkg_name, Package,
}
use flicker.Contract.Detect.{DefineCall, flicker_pkg_path, detect_defines}
use flicker.Contract.Detect.Defines.{Listed, file_nodes, detect_defines-Listed}
use flicker.Contract.Walk.{walk_execute_body, classify_step_name}
use flicker.Contract.Walk.Dynamic.{dynamic_steps, walk_execute_body-dynamic}
use flicker.Contract.Walk.Names.{quoted}
use flicker.Contract.Scan.{build_contract}

-- `type Workflow struct{}`, and `type Tree struct { Next *Tree }`.
abbrev workflow_named : Named
workflow_named = record {
  name = codes "Workflow";
  pkg_path = some (codes "order/v1");
  underlying = struct no_fields;
  type_args = [];
  string = codes "v1.Workflow";
}

abbrev tree_named : Named
tree_named = record {
  name = codes "Tree";
  pkg_path = some (codes "order/v1");
  underlying = struct (field (codes "Next") true (pointer (named 1)) [] no_fields);
  type_args = [];
  string = codes "v1.Tree";
}

abbrev entry : ℕ → Named
entry zero = workflow_named
entry (suc i) = tree_named

abbrev tree_universe : Universe
tree_universe = record { count = 2; named_of = entry }

tree_universe-IsClosed : IsClosed tree_universe
tree_universe-IsClosed = record { closed = within }
  where
    within :
        (i : ℕ)
        → i < tree_universe.count
        → Within tree_universe.count (tree_universe.named_of i).underlying
    within zero h = tt
    within (suc i) h = (omega arith, tt)

-- `flicker.name(args)`.
abbrev flicker_call : ℕ → Text → Nodes → Node
flicker_call i name args = call i (selector 1 (ident 2 (codes "flicker")) name) args

abbrev workflow_literal : Node
workflow_literal = composite_lit 12 nil

abbrev factory : Node
factory = func_lit 10 nil (cons (return_stmt 11 (cons (unary 13 workflow_literal) nil)) nil)

abbrev define_node : Node
define_node = flicker_call 3 (codes "Define") (
    cons (basic_lit 4 (quoted (codes "order")))
      (cons (basic_lit 5 (quoted (codes "v1"))) (cons factory nil)))

-- `flicker.Run(ctx, wc, name, nil)`.
abbrev run_node : Node → Node
run_node name = flicker_call 6 (codes "Run") (
    cons (ident 7 (codes "ctx"))
      (cons (ident 8 (codes "wc")) (cons name (cons (ident 9 (codes "nil")) nil))))

-- One step has a literal name, and the other a variable for a name.
abbrev body : Nodes
body =
    cons (run_node (basic_lit 14 (quoted (codes "fetch"))))
      (cons (run_node (ident 15 (codes "name"))) nil)

-- A variable of a type that embeds the context.
abbrev receiver : ℕ
receiver = 19

abbrev type_of : ℕ → Option TypeAndValue
type_of i =
    if i == 12
    then some (record { type = one (named 0); value = none })
    else if i == 14
    then some
        (record { type = one (basic (codes "string")); value = some (quoted (codes "fetch")) })
    else if i == 16
    then some
        (record { type = one (basic (codes "string")); value = some (quoted (codes "fetch")) })
    else if i == receiver
    then some (record { type = one (pointer (named 0)); value = none })
    else none

abbrev order_package : Package
order_package = record {
  errors = [];
  syntax =
      (other_decl (cons define_node nil)
        ∷ func_decl (codes "Execute") (cons (star 17 (ident 18 (codes "Workflow"))) nil) nil body
        ∷ [])
      ∷ [];
  types = type_of;
  uses = λ i. if i == 2 then some (pkg_name flicker_pkg_path) else none;
  universe = tree_universe;
  type_string = λ t. codes "type";
}

abbrev order_define : DefineCall
order_define = record {
  name = codes "order";
  version = codes "v1";
  req_type = none;
  resp_type = none;
  factory_arg = factory;
}

detect_defines-order_package : detect_defines order_package ≡ order_define ∷ []
unfolding detect_defines text_eq
detect_defines-order_package = refl

-- The error is that of the second step.
order_package-errors :
    (build_contract order_package order_define).errors
    ≡ codes "step name is not a string literal or constant: <dynamic>" ∷ []
unfolding build_contract text_eq classify_step_name
order_package-errors = refl

resolve_type_shape_lem_example :
    resolve_impl (resolve_named tree_universe (5 + enough tree_universe) []) (named 1)
    ≡ some (resolve_type_shape tree_universe (some (named 1)))
resolve_type_shape_lem_example =
    resolve_type_shape_lem tree_universe 5 (named 1) tree_universe-IsClosed (omega arith)

resolve_type_shape-IsShaped_example : IsShaped (resolve_type_shape tree_universe (some (named 1)))
resolve_type_shape-IsShaped_example = resolve_type_shape-IsShaped tree_universe (some (named 1))

detect_defines-Listed_example :
    Listed order_package
      (file_nodes order_package order_package.syntax)
      (detect_defines order_package)
detect_defines-Listed_example = detect_defines-Listed order_package

walk_execute_body-dynamic_example :
    length (walk_execute_body order_package body).errors
    ≡ dynamic_steps (walk_execute_body order_package body).steps
walk_execute_body-dynamic_example = walk_execute_body-dynamic order_package body
