-- ===== src/Contract/Detect/Factory.antt =====
-- What the factory of a workflow has to look like, told without `resolveFactory` of contract/detect.go.
use flicker.Prelude.{
  ℕ, ◌≡◌, refl, ap, sym, ◌∙◌, subst, Option, none, some, inl, inr, arith, Text, Option-cases,
}
use flicker.Contract.GoTypes.{GoType, named, struct, Fields}
use flicker.Contract.Syntax.{
  Node, func_lit, composite_lit, unary, return_stmt, Nodes, nil, cons, ValueType, one, tuple,
  TypeAndValue, Package,
}
use flicker.Contract.Detect.{
  found, missing, return_expr, struct_of, literal_type, returned, in_body, resolve_factory,
}

-- The first of some statements that returns a value returns this one.
pub data FirstReturn : Nodes → Node → Type 0 where
  returns : (i : ℕ) (e : Node) (es ns : Nodes) → FirstReturn (cons (return_stmt i (cons e es)) ns) e
  goes_on :
      (n : Node) (ns : Nodes) (e : Node)
      → ((i : ℕ) (d : Node) (ds : Nodes) → ¬ (n ≡ return_stmt i (cons d ds)))
      → FirstReturn ns e
      → FirstReturn (cons n ns) e

-- A function literal that returns `&S{…}`, where `S` is a named type, the `m`-th, over a struct.
pub data BuildsStruct (p : Package) : Node → Fields → ℕ → Type 0 where
  builds :
      (i j k m : ℕ) (type body es : Nodes) (tv : TypeAndValue) (members : Fields)
      → FirstReturn body (unary j (composite_lit k es))
      → p.types k ≡ some tv
      → tv.type ≡ one (named m)
      → (p.universe.named_of m).underlying ≡ struct members
      → BuildsStruct p (func_lit i type body) members m

pub some_injective {ℓ} : {A : Type ℓ} (a b : A) → some a ≡ some b → a ≡ b
some_injective a b h = ap (λ o. elim o [ none ↦ a | some x ↦ x ]) h

return_expr-FirstReturn : (ns : Nodes) (e : Node) → return_expr ns ≡ some e → FirstReturn ns e
unfolding return_expr
return_expr-FirstReturn nil e h = absurd (ground (arith, h))
return_expr-FirstReturn (cons (return_stmt i (cons d ds)) ns) e h =
    subst (FirstReturn (cons (return_stmt i (cons d ds)) ns)) (some_injective d e h)
      (returns i d ds ns)
return_expr-FirstReturn (cons (return_stmt i nil) ns) e h =
    goes_on _ ns e (λ j d ds k. absurd (ground (arith, k))) (return_expr-FirstReturn ns e h)
return_expr-FirstReturn (cons n ns) e h =
    goes_on n ns e (λ j d ds k. absurd (ground (arith, k))) (return_expr-FirstReturn ns e h)

FirstReturn-return_expr : (ns : Nodes) (e : Node) → FirstReturn ns e → return_expr ns ≡ some e
unfolding return_expr
FirstReturn-return_expr _ _ (returns i e es ns) = refl
FirstReturn-return_expr (cons (return_stmt i (cons d ds)) _) _ (goes_on _ ns e away h) =
    absurd (away i d ds refl)
FirstReturn-return_expr (cons (return_stmt i nil) _) _ (goes_on _ ns e away h) =
    FirstReturn-return_expr ns e h
FirstReturn-return_expr (cons n _) _ (goes_on _ ns e away h) = FirstReturn-return_expr ns e h

pub found_injective {ℓ} : {A : Type ℓ} (a b : A) → found a ≡ found b → a ≡ b
found_injective a b h = ap (λ r. elim r [ missing e ↦ a | found c ↦ c ]) h

module _ (p : Package) (members : Fields) (m : ℕ) where
  struct_lem :
      (i : ℕ) (t : GoType) → struct_of p i t ≡ found (members, m) → (i ≡ m) × (t ≡ struct members)
  struct_lem i (struct fs) h =
      let same : (fs, i) ≡ (members, m) = found_injective _ _ h in
      (ap (λ (x : Fields × ℕ). x.1) same, ap (λ (x : Fields × ℕ). struct x.0) same)
  struct_lem i _ h = absurd (ground (arith, h))

  type_lem :
      (t : ValueType) (v : Option Text)
      → literal_type p (some (record { type = t; value = v })) ≡ found (members, m)
      → (t ≡ one (named m)) × ((p.universe.named_of m).underlying ≡ struct members)
  type_lem (one (named i)) v h =
      let (same, shape) = struct_lem i (p.universe.named_of i).underlying h in
      (
        ap (λ k. one (named k)) same,
        ap (λ k. (p.universe.named_of k).underlying) (sym same) ∙ shape,
      )
  type_lem (one _) v h = absurd (ground (arith, h))
  type_lem (tuple ts) v h = absurd (ground (arith, h))

  -- What a returned expression has to be.
  abbrev Literal : Node → Type 0
  Literal e =
      (j : ℕ) × (k : ℕ) × (es : Nodes) × (tv : TypeAndValue) × (e ≡ unary j (composite_lit k es))
      × (p.types k ≡ some tv)
      × (tv.type ≡ one (named m))
      × ((p.universe.named_of m).underlying ≡ struct members)

  literal_lem :
      (j k : ℕ) (es : Nodes) (o : Option TypeAndValue)
      → p.types k ≡ o
      → literal_type p o ≡ found (members, m)
      → Literal (unary j (composite_lit k es))
  literal_lem j k es none at h = absurd (ground (arith, h))
  literal_lem j k es (some tv) at h =
      let (type', shape) = type_lem tv.type tv.value h in (j, k, es, tv, refl, at, type', shape)

  returned_lem : (e : Node) → returned p e ≡ found (members, m) → Literal e
  returned_lem (unary j (composite_lit k es)) h = literal_lem j k es (p.types k) refl h
  returned_lem (unary j _) h = absurd (ground (arith, h))
  returned_lem _ h = absurd (ground (arith, h))

  body_lem :
      (i : ℕ) (type body : Nodes)
      → in_body p body ≡ found (members, m)
      → BuildsStruct p (func_lit i type body) members m
  body_lem i type nil h = absurd (ground (arith, h))
  body_lem i type (cons n ns) h = elim (Option-cases (return_expr (cons n ns))) [
    | inl none_there ↦ absurd (ground (arith, h, none_there))
    | inr (e, at) ↦
        let (j, k, es, tv, shape, typed, named', shape') = returned_lem e (ground (arith, h, at)) in
        builds i j k m type (cons n ns) es tv members
          (subst (FirstReturn (cons n ns)) shape (return_expr-FirstReturn (cons n ns) e at)) typed
          named' shape'
  ]

  pub resolve_factory-BuildsStruct :
      (arg : Node) → resolve_factory p arg ≡ found (members, m) → BuildsStruct p arg members m
  unfolding resolve_factory
  resolve_factory-BuildsStruct (func_lit i type body) h = body_lem i type body h
  resolve_factory-BuildsStruct _ h = absurd (ground (arith, h))

body_found :
    (p : Package) (e : Node) (body : Nodes)
    → return_expr body ≡ some e
    → in_body p body ≡ returned p e
unfolding return_expr
body_found p e nil h = absurd (ground (arith, h))
body_found p e (cons n ns) h = rw (in_body, h) refl

pub BuildsStruct-resolve_factory :
    (p : Package) (arg : Node) (members : Fields) (m : ℕ)
    → BuildsStruct p arg members m
    → resolve_factory p arg ≡ found (members, m)
unfolding resolve_factory
BuildsStruct-resolve_factory p _ _ _
      (builds i j k m type body es tv members first typed named' shape) =
    body_found p (unary j (composite_lit k es)) body
      (FirstReturn-return_expr body (unary j (composite_lit k es)) first)
    ∙ rw (typed, named', shape) refl
