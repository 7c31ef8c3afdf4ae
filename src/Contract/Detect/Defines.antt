-- ===== src/Contract/Detect/Defines.antt =====
-- Which nodes are calls of `flicker.Define`, told without the tests of the code, and that `detectDefines`
-- lists them.
use flicker.Prelude.{
  ℕ, ◌≡◌, refl, ap, sym, subst, Bool, true, false, List, [], ◌∷◌, ◌++◌, Option, some, arith, Text,
  codes, text_eq, text_eq_iff, text_eq_refl, ◌&&◌,
}
use flicker.Contract.Syntax.{
  Node, ident, basic_lit, selector, call, index, index_list, func_lit, composite_lit, unary, star,
  return_stmt, other, Nodes, nil, cons, Decl, nodes_of, Object, pkg_name, Package,
}
use flicker.Contract.Detect.{
  DefineCall, is_flicker_object, is_flicker_selector, is_flicker_func, resolve_string_arg,
  extract_define_type_params, define_of, detect_defines,
}
use flicker.Contract.Detect.Preorder.{
  collect, collect_list, in_decls, in_files, detect_defines-in_files,
}

-- A function, and the same with type arguments.
pub data Instantiates (f : Node) : Node → Type 0 where
  plain : Instantiates f f
  one_type : (i : ℕ) (t : Node) → Instantiates f (index i f t)
  types : (i : ℕ) (ts : Nodes) → Instantiates f (index_list i f ts)

module _ (p : Package) where
  -- `x.Define`, where the identifier `x` stands for the package flicker.
  pub data NamesDefine : Node → Type 0 where
    names :
        (i j : ℕ) (x : Text)
        → p.uses j ≡ some (pkg_name (codes "github.com/flamingoosesoftwareinc/flicker"))
        → NamesDefine (selector i (ident j x) (codes "Define"))

  -- A call of it with a name, a version, a factory and any further arguments.
  pub data IsDefine : Node → DefineCall → Type 0 where
    is_define :
        (i : ℕ) (f g name version factory : Node) (rest : Nodes)
        → Instantiates f g
        → NamesDefine f
        → IsDefine (call i g (cons name (cons version (cons factory rest)))) (record {
          name = resolve_string_arg p name;
          version = resolve_string_arg p version;
          req_type = (extract_define_type_params p i).0;
          resp_type = (extract_define_type_params p i).1;
          factory_arg = factory;
        })

  -- The calls among some nodes: each of them once, in the order of the nodes, and nothing else.
  pub data Listed : List Node → List DefineCall → Type 0 where
    listed_all : Listed [] []
    listed_call :
        (n : Node) (d : DefineCall) (ns : List Node) (calls : List DefineCall)
        → IsDefine n d
        → Listed ns calls
        → Listed (n ∷ ns) (d ∷ calls)
    passed :
        (n : Node) (ns : List Node) (calls : List DefineCall)
        → ((d : DefineCall) → ¬ IsDefine n d)
        → Listed ns calls
        → Listed (n ∷ ns) calls

  object_lem :
      (o : Option Object)
      → is_flicker_object o ≡ true
      → o ≡ some (pkg_name (codes "github.com/flamingoosesoftwareinc/flicker"))
  object_lem (some (pkg_name path)) h = ap (λ x. some (pkg_name x)) ((text_eq_iff path _).0 h)
  object_lem _ h = absurd (ground (arith, h))

  both_true : (a b : Bool) → (a && b) ≡ true → (a ≡ true) × (b ≡ true)
  both_true a b h = ground (arith, h)

  selector_lem : (n : Node) → is_flicker_selector p (codes "Define") n ≡ true → NamesDefine n
  selector_lem (selector i (ident j x) sel) h =
      let (named, at) = both_true (text_eq sel (codes "Define")) (is_flicker_object (p.uses j)) h in
      subst (λ s. NamesDefine (selector i (ident j x) s))
        (sym ((text_eq_iff sel (codes "Define")).0 named)) (names i j x (object_lem (p.uses j) at))
  selector_lem _ h = absurd (ground (arith, h))

  NamesDefine-selector :
      (n : Node) → NamesDefine n → is_flicker_selector p (codes "Define") n ≡ true
  NamesDefine-selector _ (names i j x h) =
      rw (text_eq_refl (codes "Define"), h)
        (text_eq_refl (codes "github.com/flamingoosesoftwareinc/flicker"))

  func_lem :
      (g : Node)
      → is_flicker_func p g (codes "Define") ≡ true
      → (f : Node) × Instantiates f g × NamesDefine f
  unfolding is_flicker_func
  func_lem (index i x t) h = (x, one_type i t, selector_lem x h)
  func_lem (index_list i x ts) h = (x, types i ts, selector_lem x h)
  func_lem (selector i x sel) h = (selector i x sel, plain, selector_lem (selector i x sel) h)
  func_lem _ h = absurd (ground (arith, h))

  Instantiates-func :
      (f g : Node) → Instantiates f g → NamesDefine f → is_flicker_func p g (codes "Define") ≡ true
  unfolding is_flicker_func
  Instantiates-func _ _ plain (names i j x h) = NamesDefine-selector _ (names i j x h)
  Instantiates-func f _ (one_type i t) h = NamesDefine-selector f h
  Instantiates-func f _ (types i ts) h = NamesDefine-selector f h

  abbrev IsListed : Node → Type 0
  IsListed n = Listed (n ∷ []) (define_of p n)

  other_function :
      (i : ℕ) (g : Node) (args : Nodes) (d : DefineCall)
      → is_flicker_func p g (codes "Define") ≡ false
      → ¬ IsDefine (call i g args) d
  other_function i g _ _ h (is_define _ f _ _ _ _ _ instance' named) =
      cc (h, Instantiates-func f g instance' named)

  call_lem :
      (b : Bool) (i : ℕ) (g : Node) (args : Nodes)
      → is_flicker_func p g (codes "Define") ≡ b
      → IsListed (call i g args)
  call_lem true i g (cons name (cons version (cons factory rest))) h =
      let (f, instance', named) = func_lem g h in
      rw h (
        listed_call _ _ [] [] (is_define i f g name version factory rest instance' named)
          listed_all)
  call_lem true i g nil h = rw h (passed _ [] [] (λ d k. elim k [ ]) listed_all)
  call_lem true i g (cons a nil) h = rw h (passed _ [] [] (λ d k. elim k [ ]) listed_all)
  call_lem true i g (cons a (cons b nil)) h = rw h (passed _ [] [] (λ d k. elim k [ ]) listed_all)
  call_lem false i g args h =
      rw h (passed _ [] [] (λ d k. other_function i g args d h k) listed_all)

  node_lem : (n : Node) → IsListed n
  node_lem (call i g args) = call_lem (is_flicker_func p g (codes "Define")) i g args refl
  node_lem n = passed n [] [] (λ d k. elim k [ ]) listed_all

  Listed-append :
      (ns ms : List Node) (cs ds : List DefineCall)
      → Listed ns cs
      → Listed ms ds
      → Listed (ns ++ ms) (cs ++ ds)
  Listed-append _ ms _ ds listed_all k = k
  Listed-append _ ms _ ds (listed_call n d ns cs at h) k =
      listed_call n d (ns ++ ms) (cs ++ ds) at (Listed-append ns ms cs ds h k)
  Listed-append _ ms _ ds (passed n ns cs away h) k =
      passed n (ns ++ ms) (cs ++ ds) away (Listed-append ns ms cs ds h k)

  abbrev itself : Node → List Node
  itself n = n ∷ []

  mutual
    unfolding collect

    collected : (n : Node) → Listed (collect itself n) (collect (define_of p) n)
    collected (ident i x) = node_lem (ident i x)
    collected (basic_lit i v) = node_lem (basic_lit i v)
    collected (selector i x sel) = Listed-append _ _ _ _ (node_lem (selector i x sel)) (collected x)
    collected (call i f args) =
        Listed-append _ _ _ _ (node_lem (call i f args))
          (Listed-append _ _ _ _ (collected f) (all_collected args))
    collected (index i x j) =
        Listed-append _ _ _ _ (node_lem (index i x j))
          (Listed-append _ _ _ _ (collected x) (collected j))
    collected (index_list i x js) =
        Listed-append _ _ _ _ (node_lem (index_list i x js))
          (Listed-append _ _ _ _ (collected x) (all_collected js))
    collected (func_lit i type body) =
        Listed-append _ _ _ _ (node_lem (func_lit i type body))
          (Listed-append _ _ _ _ (all_collected type) (all_collected body))
    collected (composite_lit i ns) =
        Listed-append _ _ _ _ (node_lem (composite_lit i ns)) (all_collected ns)
    collected (unary i x) = Listed-append _ _ _ _ (node_lem (unary i x)) (collected x)
    collected (star i x) = Listed-append _ _ _ _ (node_lem (star i x)) (collected x)
    collected (return_stmt i ns) =
        Listed-append _ _ _ _ (node_lem (return_stmt i ns)) (all_collected ns)
    collected (other i go_type ns) =
        Listed-append _ _ _ _ (node_lem (other i go_type ns)) (all_collected ns)

    all_collected : (ns : Nodes) → Listed (collect_list itself ns) (collect_list (define_of p) ns)
    all_collected nil = listed_all
    all_collected (cons n ns) = Listed-append _ _ _ _ (collected n) (all_collected ns)

  -- All nodes of the package, in the order of the source, an outer node before those within it.
  abbrev pub decl_nodes : List Decl → List Node
  decl_nodes [] = []
  decl_nodes (d ∷ ds) = collect_list itself (nodes_of d) ++ decl_nodes ds

  abbrev pub file_nodes : List (List Decl) → List Node
  file_nodes [] = []
  file_nodes (f ∷ fs) = decl_nodes f ++ file_nodes fs

  decls-Listed : (ds : List Decl) → Listed (decl_nodes ds) (in_decls p ds)
  decls-Listed [] = listed_all
  decls-Listed (d ∷ ds) = Listed-append _ _ _ _ (all_collected (nodes_of d)) (decls-Listed ds)

  files-Listed : (fs : List (List Decl)) → Listed (file_nodes fs) (in_files p fs)
  files-Listed [] = listed_all
  files-Listed (f ∷ fs) = Listed-append _ _ _ _ (decls-Listed f) (files-Listed fs)

  -- `detectDefines` lists the calls of `Define` of the package flicker, with or without type arguments
  -- and with three arguments at least, that stand anywhere in the declarations of the files: each once,
  -- in the order of the source, an outer call before those within it, and no other node.
  pub detect_defines-Listed : Listed (file_nodes p.syntax) (detect_defines p)
  detect_defines-Listed =
      subst (Listed (file_nodes p.syntax)) (sym (detect_defines-in_files p)) (files-Listed p.syntax)
