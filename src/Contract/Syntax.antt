-- ===== src/Contract/Syntax.antt =====
-- What contract/ reads of package go/ast and of golang.org/x/tools/go/packages: the syntax tree of a
-- package and what the type checker recorded for it. A node carries a number, its identity, which is
-- the key of the maps of `TypesInfo`. A node that the analysis has no case for is `other` with its Go
-- type and its children; the name that a selector ends in is no node of its own.
use flicker.Prelude.{ℕ, suc, Bool, true, false, List, Option, Text, codes}
use flicker.Contract.GoTypes.{GoType, Universe}

mutual
  pub data Node : Type 0 where
    ident : ℕ → (name : Text) → Node
    basic_lit : ℕ → (value : Text) → Node
    selector : ℕ → Node → (sel : Text) → Node
    call : ℕ → (fun : Node) → (args : Nodes) → Node
    index : ℕ → Node → Node → Node
    index_list : ℕ → Node → Nodes → Node
    func_lit : ℕ → (type : Nodes) → (body : Nodes) → Node
    composite_lit : ℕ → Nodes → Node
    unary : ℕ → Node → Node
    star : ℕ → Node → Node
    return_stmt : ℕ → (results : Nodes) → Node
    other : ℕ → (go_type : Text) → (children : Nodes) → Node

  pub data Nodes : Type 0 where
    nil : Nodes
    cons : Node → Nodes → Nodes

abbrev pub id_of : Node → ℕ
id_of (ident i _) = i
id_of (basic_lit i _) = i
id_of (selector i _ _) = i
id_of (call i _ _) = i
id_of (index i _ _) = i
id_of (index_list i _ _) = i
id_of (func_lit i _ _) = i
id_of (composite_lit i _) = i
id_of (unary i _) = i
id_of (star i _) = i
id_of (return_stmt i _) = i
id_of (other i _ _) = i

-- What `%T` prints.
abbrev pub go_type_of : Node → Text
go_type_of (ident _ _) = codes "*ast.Ident"
go_type_of (basic_lit _ _) = codes "*ast.BasicLit"
go_type_of (selector _ _ _) = codes "*ast.SelectorExpr"
go_type_of (call _ _ _) = codes "*ast.CallExpr"
go_type_of (index _ _ _) = codes "*ast.IndexExpr"
go_type_of (index_list _ _ _) = codes "*ast.IndexListExpr"
go_type_of (func_lit _ _ _) = codes "*ast.FuncLit"
go_type_of (composite_lit _ _) = codes "*ast.CompositeLit"
go_type_of (unary _ _) = codes "*ast.UnaryExpr"
go_type_of (star _ _) = codes "*ast.StarExpr"
go_type_of (return_stmt _ _) = codes "*ast.ReturnStmt"
go_type_of (other _ go_type _) = go_type

abbrev pub count : Nodes → ℕ
count nil = 0
count (cons n ns) = suc (count ns)

abbrev pub append : Nodes → Nodes → Nodes
append nil ms = ms
append (cons n ns) ms = cons n (append ns ms)

pub data Decl : Type 0 where
  -- The types of the receivers, the rest of the signature, and the statements of the body.
  func_decl : (name : Text) → (recv : Nodes) → (signature : Nodes) → (body : Nodes) → Decl
  other_decl : Nodes → Decl

abbrev pub nodes_of : Decl → Nodes
nodes_of (func_decl name recv signature body) = append recv (append signature body)
nodes_of (other_decl ns) = ns

-- The type of an expression; that of a call with several results is a tuple.
pub data ValueType : Type 0 where
  one : GoType → ValueType
  tuple : List GoType → ValueType

pub record TypeAndValue : Type 0 where
  pub type : ValueType
  -- `Value.ExactString()` of a constant.
  pub value : Option Text

pub data Object : Type 0 where
  pkg_name : (imported_path : Text) → Object
  other_object : Object

pub record Package : Type 0 where
  pub errors : List Text
  pub syntax : List (List Decl)
  pub types : ℕ → Option TypeAndValue
  pub uses : ℕ → Option Object
  pub universe : Universe
  -- `String()` of a type.
  pub type_string : GoType → Text

-- `ast.Inspect`: the node, and its children in order if `visit` says so.
abbrev enter : {S : Type 0} → S × Bool → (S → S) → S
enter (s, true) k = k s
enter (s, false) k = s

module _ {S : Type 0} (visit : Node → S → S × Bool) where
  unfoldable mutual
    pub inspect : Node → S → S
    inspect (ident i x) s = (visit (ident i x) s).0
    inspect (basic_lit i v) s = (visit (basic_lit i v) s).0
    inspect (selector i x sel) s = enter (visit (selector i x sel) s) (inspect x)
    inspect (call i f args) s =
        enter (visit (call i f args) s) (λ s'. inspect_list args (inspect f s'))
    inspect (index i x j) s = enter (visit (index i x j) s) (λ s'. inspect j (inspect x s'))
    inspect (index_list i x js) s =
        enter (visit (index_list i x js) s) (λ s'. inspect_list js (inspect x s'))
    inspect (func_lit i type body) s =
        enter (visit (func_lit i type body) s) (λ s'. inspect_list body (inspect_list type s'))
    inspect (composite_lit i ns) s = enter (visit (composite_lit i ns) s) (inspect_list ns)
    inspect (unary i x) s = enter (visit (unary i x) s) (inspect x)
    inspect (star i x) s = enter (visit (star i x) s) (inspect x)
    inspect (return_stmt i ns) s = enter (visit (return_stmt i ns) s) (inspect_list ns)
    inspect (other i go_type ns) s = enter (visit (other i go_type ns) s) (inspect_list ns)

    pub inspect_list : Nodes → S → S
    inspect_list nil s = s
    inspect_list (cons n ns) s = inspect_list ns (inspect n s)
