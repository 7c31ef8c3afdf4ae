-- ===== src/Contract/Walk/Dynamic.antt =====
-- Step names that the analysis cannot read are reported, each once, at whatever depth of branches.
use flicker.Prelude.{
  ℕ, ◌+◌, ◌≡◌, refl, Bool, true, false, List, [], ◌∷◌, ◌++◌, none, arith, Text, codes, length,
  if◌then◌else◌,
}
use flicker.Contract.Shape.{
  StepKind, literal, constant, provider, dynamic, Step, step, Branches, no_branches, branch, Steps,
  no_steps, more,
}
use flicker.Contract.Syntax.{
  Node, ident, basic_lit, selector, call, index, index_list, func_lit, composite_lit, unary, star,
  return_stmt, other, Nodes, nil, cons, Package,
}
use flicker.Contract.Walk.{
  Walker, add_parallel, parallel_step, new_walker, append_steps, append_branches, add_step,
  add_branch, named_step, classify_step_name, extract_call_type_param, extract_named_step,
  note_provider_call, note_context_call, inspect_node, inspect_nodes, extract_parallel_step,
  extract_branches, extract_branch, walk_execute_body,
}

-- The steps of a dynamic name, those in branches included.
abbrev mutual
  pub dynamic_step : Step → ℕ
  dynamic_step (step name dynamic type step_type bs) = 1 + dynamic_branches bs
  dynamic_step (step name literal type step_type bs) = dynamic_branches bs
  dynamic_step (step name constant type step_type bs) = dynamic_branches bs
  dynamic_step (step name provider type step_type bs) = dynamic_branches bs

  pub dynamic_branches : Branches → ℕ
  dynamic_branches no_branches = 0
  dynamic_branches (branch name ss bs) = dynamic_steps ss + dynamic_branches bs

  pub dynamic_steps : Steps → ℕ
  dynamic_steps no_steps = 0
  dynamic_steps (more s ss) = dynamic_step s + dynamic_steps ss

length-append : (xs ys : List Text) → length (xs ++ ys) ≡ length xs + length ys
length-append [] ys = omega arith
length-append (x ∷ xs) ys = omega (arith, length-append xs ys)

dynamic_steps-append_steps :
    (ss ts : Steps) → dynamic_steps (append_steps ss ts) ≡ dynamic_steps ss + dynamic_steps ts
dynamic_steps-append_steps no_steps ts = omega arith
dynamic_steps-append_steps (more s ss) ts = omega (arith, dynamic_steps-append_steps ss ts)

dynamic_branches-append_branches :
    (bs cs : Branches)
    → dynamic_branches (append_branches bs cs) ≡ dynamic_branches bs + dynamic_branches cs
dynamic_branches-append_branches no_branches cs = omega arith
dynamic_branches-append_branches (branch name ss bs) cs =
    omega (arith, dynamic_branches-append_branches bs cs)

-- As many errors as dynamic steps; between, `n` of them stand in branches that no step holds yet.
abbrev IsBalanced : ℕ → Walker → Type 0
IsBalanced n w = length w.errors ≡ dynamic_steps w.steps + n

add_step-IsBalanced :
    (s : Step) (n m : ℕ) (w : Walker)
    → IsBalanced n w
    → n ≡ dynamic_step s + m
    → IsBalanced m (add_step s w)
add_step-IsBalanced s n m w h e =
    omega (arith, dynamic_steps-append_steps w.steps (more s no_steps))

named_step-IsBalanced :
    (p : Package) (step_type : Text) (i : ℕ) (c : Text × StepKind) (w : Walker)
    → IsBalanced 0 w
    → IsBalanced 0 (named_step p step_type i c w)
named_step-IsBalanced p step_type i (name, dynamic) w h = omega (
  arith,
  dynamic_steps-append_steps w.steps
      (more (step name dynamic (extract_call_type_param p i) step_type no_branches) no_steps),
  length-append w.errors ((codes "step name is not a string literal or constant: " ++ name) ∷ []),
)
named_step-IsBalanced p step_type i (name, literal) w h = omega (
  arith,
  dynamic_steps-append_steps w.steps
      (more (step name literal (extract_call_type_param p i) step_type no_branches) no_steps),
  length-append w.errors [],
)
named_step-IsBalanced p step_type i (name, constant) w h = omega (
  arith,
  dynamic_steps-append_steps w.steps
      (more (step name constant (extract_call_type_param p i) step_type no_branches) no_steps),
  length-append w.errors [],
)
named_step-IsBalanced p step_type i (name, provider) w h = omega (
  arith,
  dynamic_steps-append_steps w.steps
      (more (step name provider (extract_call_type_param p i) step_type no_branches) no_steps),
  length-append w.errors [],
)

extract_named_step-IsBalanced :
    (p : Package) (step_type : Text) (i : ℕ) (args : Nodes) (w : Walker)
    → IsBalanced 0 w
    → IsBalanced 0 (extract_named_step p step_type i args w)
unfolding extract_named_step
extract_named_step-IsBalanced p step_type i nil w h = h
extract_named_step-IsBalanced p step_type i (cons ctx nil) w h = h
extract_named_step-IsBalanced p step_type i (cons ctx (cons wc nil)) w h = h
extract_named_step-IsBalanced p step_type i (cons ctx (cons wc (cons name rest))) w h =
    named_step-IsBalanced p step_type i (classify_step_name p name) w h

note_context_call-IsBalanced :
    (p : Package) (f : Node) (w : Walker) → IsBalanced 0 w → IsBalanced 0 (note_context_call p f w)
unfolding note_context_call
note_context_call-IsBalanced p f w h =
    let added = λ (name step_type : Text).
      dynamic_steps-append_steps w.steps
        (more (step name provider none step_type no_branches) no_steps) in
    ground (
      arith,
      added (codes "_sleep.until:*") (codes "sleep_until"),
      added (codes "_time.now:*") (codes "provider"),
      added (codes "_id.new:*") (codes "provider"),
    )

note_provider_call-IsBalanced :
    (p : Package) (i : ℕ) (args : Nodes) (w : Walker)
    → IsBalanced 0 w
    → IsBalanced 0 (note_provider_call p i args w)
unfolding note_provider_call
note_provider_call-IsBalanced p i args w h = h

-- Five ways to go on after a call.
five_ways :
    (parallel run wait provide : Bool) (a b c d e : Walker)
    → IsBalanced 0 a
    → IsBalanced 0 b
    → IsBalanced 0 c
    → IsBalanced 0 d
    → IsBalanced 0 e
    → IsBalanced 0
        (if parallel then a else if run then b else if wait then c else if provide then d else e)
five_ways true run wait provide a b c d e ha hb hc hd he = ha
five_ways false true wait provide a b c d e ha hb hc hd he = hb
five_ways false false true provide a b c d e ha hb hc hd he = hc
five_ways false false false true a b c d e ha hb hc hd he = hd
five_ways false false false false a b c d e ha hb hc hd he = he

abbrev BranchesBalanced : Branches × Walker → Type 0
BranchesBalanced (bs, w) = IsBalanced (dynamic_branches bs) w

add_branch-BranchesBalanced :
    (name : Text) (sub : Walker) (s : Branches × Walker)
    → IsBalanced 0 sub
    → BranchesBalanced s
    → BranchesBalanced (add_branch name sub s)
add_branch-BranchesBalanced name sub (bs, w) h k = omega (
  arith,
  dynamic_branches-append_branches bs (branch name sub.steps no_branches),
  length-append w.errors sub.errors,
)

add_parallel-IsBalanced :
    (s : Branches × Walker) → BranchesBalanced s → IsBalanced 0 (add_parallel s)
add_parallel-IsBalanced (bs, w) h =
    add_step-IsBalanced (parallel_step bs) (dynamic_branches bs) 0 w h (omega arith)

if-BranchesBalanced :
    (b : Bool) (s t : Branches × Walker)
    → BranchesBalanced s
    → BranchesBalanced t
    → BranchesBalanced (if b then s else t)
if-BranchesBalanced true s t h k = h
if-BranchesBalanced false s t h k = k

mutual
  unfolding inspect_node

  inspect_node-IsBalanced :
      (p : Package) (n : Node) (w : Walker) → IsBalanced 0 w → IsBalanced 0 (inspect_node p n w)
  inspect_node-IsBalanced p (call i f args) w h =
      five_ways _ _ _ _ _ _ _ _ _ (extract_parallel_step-IsBalanced p args w h)
        (extract_named_step-IsBalanced p (codes "run") i args w h)
        (extract_named_step-IsBalanced p (codes "wait_for_event") i args w h)
        (note_provider_call-IsBalanced p i args w h)
        (inspect_nodes-IsBalanced p args (inspect_node p f (note_context_call p f w)) (
          inspect_node-IsBalanced p f (note_context_call p f w)
            (note_context_call-IsBalanced p f w h)))
  inspect_node-IsBalanced p (ident i x) w h = h
  inspect_node-IsBalanced p (basic_lit i v) w h = h
  inspect_node-IsBalanced p (selector i x sel) w h = inspect_node-IsBalanced p x w h
  inspect_node-IsBalanced p (index i x j) w h =
      inspect_node-IsBalanced p j (inspect_node p x w) (inspect_node-IsBalanced p x w h)
  inspect_node-IsBalanced p (index_list i x js) w h =
      inspect_nodes-IsBalanced p js (inspect_node p x w) (inspect_node-IsBalanced p x w h)
  inspect_node-IsBalanced p (func_lit i type body) w h =
      inspect_nodes-IsBalanced p body (inspect_nodes p type w) (inspect_nodes-IsBalanced p type w h)
  inspect_node-IsBalanced p (composite_lit i ns) w h = inspect_nodes-IsBalanced p ns w h
  inspect_node-IsBalanced p (unary i x) w h = inspect_node-IsBalanced p x w h
  inspect_node-IsBalanced p (star i x) w h = inspect_node-IsBalanced p x w h
  inspect_node-IsBalanced p (return_stmt i ns) w h = inspect_nodes-IsBalanced p ns w h
  inspect_node-IsBalanced p (other i go_type ns) w h = inspect_nodes-IsBalanced p ns w h

  inspect_nodes-IsBalanced :
      (p : Package) (ns : Nodes) (w : Walker) → IsBalanced 0 w → IsBalanced 0 (inspect_nodes p ns w)
  inspect_nodes-IsBalanced p nil w h = h
  inspect_nodes-IsBalanced p (cons n ns) w h =
      inspect_nodes-IsBalanced p ns (inspect_node p n w) (inspect_node-IsBalanced p n w h)

  extract_parallel_step-IsBalanced :
      (p : Package) (args : Nodes) (w : Walker)
      → IsBalanced 0 w
      → IsBalanced 0 (extract_parallel_step p args w)
  extract_parallel_step-IsBalanced p nil w h = h
  extract_parallel_step-IsBalanced p (cons ctx nil) w h = h
  extract_parallel_step-IsBalanced p (cons ctx (cons wc args)) w h =
      add_parallel-IsBalanced (extract_branches p args (no_branches, w))
        (extract_branches-BranchesBalanced p args (no_branches, w) h)

  extract_branches-BranchesBalanced :
      (p : Package) (args : Nodes) (s : Branches × Walker)
      → BranchesBalanced s
      → BranchesBalanced (extract_branches p args s)
  extract_branches-BranchesBalanced p nil s h = h
  extract_branches-BranchesBalanced p (cons arg args) s h =
      extract_branches-BranchesBalanced p args (extract_branch p arg s)
        (extract_branch-BranchesBalanced p arg s h)

  extract_branch-BranchesBalanced :
      (p : Package) (arg : Node) (s : Branches × Walker)
      → BranchesBalanced s
      → BranchesBalanced (extract_branch p arg s)
  extract_branch-BranchesBalanced p (call i f (cons name (cons (func_lit j type body) rest))) s h =
      if-BranchesBalanced _ _ _
        (add_branch-BranchesBalanced _ (inspect_nodes p body new_walker) s
          (inspect_nodes-IsBalanced p body new_walker refl) h)
        h
  extract_branch-BranchesBalanced p _ s h = h

-- The walk reports as many errors as there are steps whose name it cannot read, at whatever depth of
-- branches.
pub walk_execute_body-dynamic :
    (p : Package) (body : Nodes)
    → length (walk_execute_body p body).errors ≡ dynamic_steps (walk_execute_body p body).steps
unfolding walk_execute_body
walk_execute_body-dynamic p body = omega (arith, inspect_nodes-IsBalanced p body new_walker refl)
