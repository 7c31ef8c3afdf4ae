-- ===== src/Contract/Detect/Preorder.antt =====
-- What `ast.Inspect` visits where the function always goes on: every node once, parents first.
use flicker.Prelude.{◌≡◌, refl, ap, ◌∙◌, Bool, true, List, [], ◌∷◌, ◌++◌}
use flicker.Contract.Syntax.{
  Node, ident, basic_lit, selector, call, index, index_list, func_lit, composite_lit, unary, star,
  return_stmt, other, Nodes, nil, cons, Decl, nodes_of, Package, inspect, inspect_list,
}
use flicker.Contract.Detect.{
  DefineCall, define_of, note_define, detect_in_file, detect_files, detect_defines,
}
use mathlib.Core.List.{append_assoc, append-nil}

-- The results at all nodes, in the order in which the source has them.
module _ {A : Type 0} (at : Node → List A) where
  unfoldable mutual
    pub collect : Node → List A
    collect (ident i x) = at (ident i x)
    collect (basic_lit i v) = at (basic_lit i v)
    collect (selector i x sel) = at (selector i x sel) ++ collect x
    collect (call i f args) = at (call i f args) ++ (collect f ++ collect_list args)
    collect (index i x j) = at (index i x j) ++ (collect x ++ collect j)
    collect (index_list i x js) = at (index_list i x js) ++ (collect x ++ collect_list js)
    collect (func_lit i type body) =
        at (func_lit i type body) ++ (collect_list type ++ collect_list body)
    collect (composite_lit i ns) = at (composite_lit i ns) ++ collect_list ns
    collect (unary i x) = at (unary i x) ++ collect x
    collect (star i x) = at (star i x) ++ collect x
    collect (return_stmt i ns) = at (return_stmt i ns) ++ collect_list ns
    collect (other i go_type ns) = at (other i go_type ns) ++ collect_list ns

    pub collect_list : Nodes → List A
    collect_list nil = []
    collect_list (cons n ns) = collect n ++ collect_list ns

  abbrev visit : Node → List A → List A × Bool
  visit n xs = (xs ++ at n, true)

  mutual
    unfolding inspect collect

    inspect_collects : (n : Node) (xs : List A) → inspect visit n xs ≡ xs ++ collect n
    inspect_collects (ident i x) xs = refl
    inspect_collects (basic_lit i v) xs = refl
    inspect_collects (selector i x sel) xs = simp (inspect_collects x, append_assoc)
    inspect_collects (call i f args) xs =
        simp (inspect_collects f, list_collects args, append_assoc)
    inspect_collects (index i x j) xs = simp (inspect_collects x, inspect_collects j, append_assoc)
    inspect_collects (index_list i x js) xs =
        simp (inspect_collects x, list_collects js, append_assoc)
    inspect_collects (func_lit i type body) xs =
        simp (list_collects type, list_collects body, append_assoc)
    inspect_collects (composite_lit i ns) xs = simp (list_collects ns, append_assoc)
    inspect_collects (unary i x) xs = simp (inspect_collects x, append_assoc)
    inspect_collects (star i x) xs = simp (inspect_collects x, append_assoc)
    inspect_collects (return_stmt i ns) xs = simp (list_collects ns, append_assoc)
    inspect_collects (other i go_type ns) xs = simp (list_collects ns, append_assoc)

    list_collects : (ns : Nodes) (xs : List A) → inspect_list visit ns xs ≡ xs ++ collect_list ns
    list_collects nil xs = simp append-nil
    list_collects (cons n ns) xs = simp (inspect_collects n, list_collects ns, append_assoc)

module _ (p : Package) where
  abbrev pub in_decls : List Decl → List DefineCall
  in_decls [] = []
  in_decls (d ∷ ds) = collect_list (define_of p) (nodes_of d) ++ in_decls ds

  abbrev pub in_files : List (List Decl) → List DefineCall
  in_files [] = []
  in_files (f ∷ fs) = in_decls f ++ in_files fs

  detect_in_file_lem :
      (ds : List Decl) (calls : List DefineCall) → detect_in_file p ds calls ≡ calls ++ in_decls ds
  unfolding detect_in_file
  detect_in_file_lem [] calls = simp append-nil
  detect_in_file_lem (d ∷ ds) calls =
      detect_in_file_lem ds (inspect_list (note_define p) (nodes_of d) calls)
      ∙ ap (λ xs. xs ++ in_decls ds) (list_collects (define_of p) (nodes_of d) calls)
      ∙ append_assoc calls (collect_list (define_of p) (nodes_of d)) (in_decls ds)

  detect_files_lem :
      (fs : List (List Decl)) (calls : List DefineCall)
      → detect_files p fs calls ≡ calls ++ in_files fs
  unfolding detect_files
  detect_files_lem [] calls = simp append-nil
  detect_files_lem (f ∷ fs) calls =
      detect_files_lem fs (detect_in_file p f calls)
      ∙ ap (λ xs. xs ++ in_files fs) (detect_in_file_lem f calls)
      ∙ append_assoc calls (in_decls f) (in_files fs)

  pub detect_defines-in_files : detect_defines p ≡ in_files p.syntax
  unfolding detect_defines
  detect_defines-in_files = detect_files_lem p.syntax []
