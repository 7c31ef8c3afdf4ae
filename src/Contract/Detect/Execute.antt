-- ===== src/Contract/Detect/Execute.antt =====
-- What the method `Execute` of a workflow has to look like, told without `findExecuteMethod` of
-- contract/detect.go.
use flicker.Prelude.{
  ℕ, ◌≡◌, refl, ap, sym, ◌∙◌, subst, Bool, true, List, [], ◌∷◌, ◌++◌, Option, none, some, inl, inr,
  arith, Text, codes, text_eq, text_eq_iff, text_eq_refl, ◌&&◌, Bool-cases,
}
use flicker.Contract.Syntax.{ident, star, Nodes, nil, cons, Decl, func_decl, other_decl, Package}
use flicker.Contract.Detect.{
  found, missing, receives, execute_in, execute_body, find_execute_method,
}
use flicker.Contract.Detect.Factory.{some_injective, found_injective}

-- The declaration of a method `Execute` whose receiver is a pointer to the named type.
pub data IsExecute (name : Text) : Decl → Nodes → Type 0 where
  is_execute :
      (i j : ℕ) (ns signature body : Nodes)
      → IsExecute name
          (func_decl (codes "Execute") (cons (star i (ident j name)) ns) signature body)
          body

-- The first such declaration has this body.
pub data FirstExecute (name : Text) : List Decl → Nodes → Type 0 where
  executes :
      (d : Decl) (ds : List Decl) (body : Nodes)
      → IsExecute name d body
      → FirstExecute name (d ∷ ds) body
  comes_later :
      (d : Decl) (ds : List Decl) (body : Nodes)
      → ((b : Nodes) → ¬ IsExecute name d b)
      → FirstExecute name ds body
      → FirstExecute name (d ∷ ds) body

-- The declarations of all files.
abbrev pub all_decls : List (List Decl) → List Decl
all_decls [] = []
all_decls (f ∷ fs) = f ++ all_decls fs

module _ (name : Text) where
  execute_in-append :
      (ds es : List Decl)
      → execute_in name (ds ++ es)
        ≡ elim (execute_in name ds) [ some body ↦ some body | none ↦ execute_in name es ]
  unfolding execute_in
  execute_in-append [] es = refl
  execute_in-append (other_decl ns ∷ ds) es = execute_in-append ds es
  execute_in-append (func_decl f recv signature body ∷ ds) es =
      ground (arith, execute_in-append ds es)

  execute_body-all_decls :
      (files : List (List Decl)) → execute_body name files ≡ execute_in name (all_decls files)
  unfolding execute_body execute_in
  execute_body-all_decls [] = refl
  execute_body-all_decls (f ∷ fs) =
      ground (arith, execute_in-append f (all_decls fs), execute_body-all_decls fs)

  both_true : (a b : Bool) → (a && b) ≡ true → (a ≡ true) × (b ≡ true)
  both_true a b h = ground (arith, h)

  receiver_lem :
      (recv signature body : Nodes)
      → receives name recv ≡ true
      → IsExecute name (func_decl (codes "Execute") recv signature body) body
  receiver_lem (cons (star i (ident j x)) ns) signature body h =
      subst
        (λ y.
          IsExecute name (func_decl (codes "Execute") (cons (star i (ident j y)) ns) signature body)
            body)
        (sym ((text_eq_iff x name).0 h)) (is_execute i j ns signature body)
  receiver_lem (cons (star i _) ns) signature body h = absurd (ground (arith, h))
  receiver_lem (cons _ ns) signature body h = absurd (ground (arith, h))
  receiver_lem nil signature body h = absurd (ground (arith, h))

  abbrev selects : Text → Nodes → Bool
  selects f recv = text_eq f (codes "Execute") && receives name recv

  selects-IsExecute :
      (f : Text) (recv signature body : Nodes)
      → selects f recv ≡ true
      → IsExecute name (func_decl f recv signature body) body
  selects-IsExecute f recv signature body h =
      let (called, received) = both_true (text_eq f (codes "Execute")) (receives name recv) h in
      subst (λ g. IsExecute name (func_decl g recv signature body) body)
        (sym ((text_eq_iff f (codes "Execute")).0 called))
        (receiver_lem recv signature body received)

  IsExecute-selects :
      (f : Text) (recv signature body b : Nodes)
      → IsExecute name (func_decl f recv signature body) b
      → (selects f recv ≡ true) × (body ≡ b)
  IsExecute-selects _ _ _ _ _ (is_execute i j ns signature body) =
      (rw (text_eq_refl (codes "Execute"), text_eq_refl name) refl, refl)

  execute_in-FirstExecute :
      (ds : List Decl) (b : Nodes) → execute_in name ds ≡ some b → FirstExecute name ds b
  unfolding execute_in
  execute_in-FirstExecute [] b h = absurd (ground (arith, h))
  execute_in-FirstExecute (other_decl ns ∷ ds) b h =
      comes_later _ ds b (λ c k. elim k [ ]) (execute_in-FirstExecute ds b h)
  execute_in-FirstExecute (func_decl f recv signature body ∷ ds) b h =
      elim (Bool-cases (selects f recv)) [
        | inl this ↦ executes _ ds b (
            subst (IsExecute name (func_decl f recv signature body)) (ground (arith, h, this))
              (selects-IsExecute f recv signature body this))
        | inr away ↦
            comes_later _ ds b (λ c k. cc (away, (IsExecute-selects f recv signature body c k).0))
              (execute_in-FirstExecute ds b (ground (arith, h, away)))
      ]

  FirstExecute-execute_in :
      (ds : List Decl) (b : Nodes) → FirstExecute name ds b → execute_in name ds ≡ some b
  unfolding execute_in
  FirstExecute-execute_in _ b (executes (other_decl ns) ds _ k) = elim k [ ]
  FirstExecute-execute_in _ b (executes (func_decl f recv signature body) ds _ k) =
      let (this, same) = IsExecute-selects f recv signature body b k in rw (this, same) refl
  FirstExecute-execute_in _ b (comes_later (other_decl ns) ds _ away k) =
      FirstExecute-execute_in ds b k
  FirstExecute-execute_in _ b (comes_later (func_decl f recv signature body) ds _ away k) =
      elim (Bool-cases (selects f recv)) [
        | inl this ↦ absurd (away body (selects-IsExecute f recv signature body this))
        | inr other ↦ rw other (FirstExecute-execute_in ds b k)
      ]

  found_of :
      (o : Option Nodes) (s : Text) (b : Nodes)
      → elim o [ some body ↦ found body | none ↦ missing s ] ≡ found b
      → o ≡ some b
  found_of none s b h = absurd (ground (arith, h))
  found_of (some body) s b h = ap some (found_injective body b h)

  of_found :
      (o : Option Nodes) (s : Text) (b : Nodes)
      → o ≡ some b
      → elim o [ some body ↦ found body | none ↦ missing s ] ≡ found b
  of_found none s b h = absurd (ground (arith, h))
  of_found (some body) s b h = ap found (some_injective body b h)

  pub find_execute_method-FirstExecute :
      (p : Package) (b : Nodes)
      → find_execute_method p name ≡ found b
      → FirstExecute name (all_decls p.syntax) b
  unfolding find_execute_method
  find_execute_method-FirstExecute p b h =
      execute_in-FirstExecute (all_decls p.syntax) b
        (sym (execute_body-all_decls p.syntax) ∙ found_of (execute_body name p.syntax) _ b h)

  pub FirstExecute-find_execute_method :
      (p : Package) (b : Nodes)
      → FirstExecute name (all_decls p.syntax) b
      → find_execute_method p name ≡ found b
  unfolding find_execute_method
  FirstExecute-find_execute_method p b h =
      of_found (execute_body name p.syntax) _ b
        (execute_body-all_decls p.syntax ∙ FirstExecute-execute_in (all_decls p.syntax) b h)
