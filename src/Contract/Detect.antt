-- ===== src/Contract/Detect.antt =====
-- contract/detect.go.
pub mod Preorder
pub mod Defines
pub mod Factory
pub mod Execute
use flicker.Prelude.{
  ℕ, ◌+◌, suc, ◌==◌, leb, Bool, true, false, not, ◌&&◌, List, [], ◌∷◌, ◌++◌, Option, none, some,
  Text, codes, text_eq, if◌then◌else◌,
}
use flicker.Contract.Shape.{TypeShape, Provider}
use flicker.Contract.GoTypes.{GoType, named, struct, pointer, Fields, Named, Universe}
use flicker.Contract.Resolve.{resolve_type_shape}
use flicker.Contract.Syntax.{
  Node, ident, basic_lit, selector, call, index, index_list, func_lit, composite_lit, unary, star,
  return_stmt, other, Nodes, nil, cons, id_of, go_type_of, count, Decl, func_decl, other_decl,
  nodes_of, ValueType, one, tuple, TypeAndValue, Object, pkg_name, other_object, Package, inspect,
  inspect_list,
}

-- A value, or the text of the error.
pub data Found {ℓ} (A : Type ℓ) : Type ℓ where
  found : A → Found A
  missing : Text → Found A

abbrev pub flicker_pkg_path : Text
flicker_pkg_path = codes "github.com/flamingoosesoftwareinc/flicker"

-- The function of a call, without its type arguments.
abbrev callee : Node → Node
callee (index_list i x js) = x
callee (index i x j) = x
callee f = f

abbrev is_flicker_object : Option Object → Bool
is_flicker_object (some (pkg_name path)) = text_eq path flicker_pkg_path
is_flicker_object _ = false

abbrev is_flicker_selector : Package → Text → Node → Bool
is_flicker_selector p func_name (selector i (ident j x) sel) =
    text_eq sel func_name && is_flicker_object (p.uses j)
is_flicker_selector p func_name _ = false

-- `isFlickerFunc` at the function of the call.
unfoldable pub is_flicker_func : Package → Node → Text → Bool
is_flicker_func p f func_name = is_flicker_selector p func_name (callee f)

-- All but the last byte, if that is a double quote.
unfoldable pub before_quote : Text → Option Text
before_quote [] = none
before_quote (c ∷ []) = if c == 34 then some [] else none
before_quote (c ∷ d ∷ cs) = elim (before_quote (d ∷ cs)) [ none ↦ none | some s ↦ some (c ∷ s) ]

abbrev or_whole : Text → Option Text → Text
or_whole s none = s
or_whole s (some t) = t

unfoldable pub unquote : Text → Text
unfolding before_quote
unquote [] = []
unquote (c ∷ cs) = if c == 34 then or_whole (c ∷ cs) (before_quote cs) else c ∷ cs

-- `tv.Value` of `TypesInfo.Types[expr]`.
abbrev value_of : Option TypeAndValue → Option Text
value_of none = none
value_of (some tv) = tv.value

abbrev pub constant_value : Package → Node → Option Text
constant_value p e = value_of (p.types (id_of e))

abbrev literal_value : Node → Text
literal_value (basic_lit i v) = unquote v
literal_value _ = codes "<unresolved>"

unfoldable pub resolve_string_arg : Package → Node → Text
unfolding unquote
resolve_string_arg p e = elim (constant_value p e) [ some s ↦ unquote s | none ↦ literal_value e ]

-- The named type that a pointer type points to, as a number of the table.
abbrev pointed_value : ValueType → Option ℕ
pointed_value (one (pointer (named i))) = some i
pointed_value _ = none

abbrev pub pointed : Option TypeAndValue → Option ℕ
pointed none = none
pointed (some tv) = pointed_value tv.type

abbrev first_two : List GoType → Option GoType × Option GoType
first_two (a ∷ b ∷ ts) = (some a, some b)
first_two _ = (none, none)

unfoldable pub extract_define_type_params : Package → ℕ → Option GoType × Option GoType
extract_define_type_params p call_id = elim (pointed (p.types call_id)) [
  | none ↦ (none, none)
  | some i ↦ first_two (p.universe.named_of i).type_args
]

-- `pos` is never read.
pub record DefineCall : Type 0 where
  pub name : Text
  pub version : Text
  pub req_type : Option GoType
  pub resp_type : Option GoType
  pub factory_arg : Node

abbrev define_call : Package → ℕ → Nodes → List DefineCall
define_call p i (cons name (cons version (cons factory rest))) =
    record {
      name = resolve_string_arg p name;
      version = resolve_string_arg p version;
      req_type = (extract_define_type_params p i).0;
      resp_type = (extract_define_type_params p i).1;
      factory_arg = factory;
    }
    ∷ []
define_call p i _ = []

abbrev pub define_of : Package → Node → List DefineCall
define_of p (call i f args) =
    if is_flicker_func p f (codes "Define") then define_call p i args else []
define_of p _ = []

-- The function that `detectDefines` gives to `ast.Inspect`.
abbrev pub note_define : Package → Node → List DefineCall → List DefineCall × Bool
note_define p n calls = (calls ++ define_of p n, true)

unfoldable pub detect_in_file : Package → List Decl → List DefineCall → List DefineCall
unfolding inspect is_flicker_func resolve_string_arg extract_define_type_params
detect_in_file p [] calls = calls
detect_in_file p (d ∷ ds) calls =
    detect_in_file p ds (inspect_list (note_define p) (nodes_of d) calls)

unfoldable pub detect_files : Package → List (List Decl) → List DefineCall → List DefineCall
unfolding detect_in_file
detect_files p [] calls = calls
detect_files p (f ∷ fs) calls = detect_files p fs (detect_in_file p f calls)

unfoldable pub detect_defines : Package → List DefineCall
unfolding detect_files
detect_defines p = detect_files p p.syntax []

-- The first result of the first return statement, at the top level of the body.
unfoldable pub return_expr : Nodes → Option Node
return_expr nil = none
return_expr (cons (return_stmt i (cons e es)) ns) = some e
return_expr (cons n ns) = return_expr ns

abbrev got : Text → Text → Found (Fields × ℕ)
got what seen = missing (what ++ (codes " (got " ++ (seen ++ codes ")")))

abbrev struct_of : Package → ℕ → GoType → Found (Fields × ℕ)
struct_of p i (struct fields) = found (fields, i)
struct_of p i t = got (codes "composite literal type is not a struct") (p.type_string t)

abbrev literal_type : Package → Option TypeAndValue → Found (Fields × ℕ)
literal_type p none = missing (codes "could not resolve composite literal type")
literal_type p (some tv) = elim tv.type [
  | one t ↦ named_type t
  | tuple ts ↦ got (codes "composite literal type is not named") (codes "tuple")
]
  where
    named_type : GoType → Found (Fields × ℕ)
    named_type (named i) = struct_of p i (p.universe.named_of i).underlying
    named_type t = got (codes "composite literal type is not named") (p.type_string t)

abbrev returned : Package → Node → Found (Fields × ℕ)
returned p (unary i (composite_lit j es)) = literal_type p (p.types j)
returned p (unary i x) =
    got (codes "factory return is not &SomeStruct{}") (codes "&" ++ go_type_of x)
returned p e = got (codes "factory return is not &SomeStruct{}") (go_type_of e)

abbrev in_body : Package → Nodes → Found (Fields × ℕ)
in_body p nil = missing (codes "factory function has empty body")
in_body p body = elim (return_expr body) [
  | none ↦ missing (codes "factory function has no return statement")
  | some e ↦ returned p e
]

-- The struct type and the named type of the workflow that a factory builds.
unfoldable pub resolve_factory : Package → Node → Found (Fields × ℕ)
unfolding return_expr
resolve_factory p (func_lit i type body) = in_body p body
resolve_factory p e = got (codes "factory argument is not a function literal") (go_type_of e)

-- Whether the receiver is a pointer to the named type.
abbrev receives : Text → Nodes → Bool
receives struct_name (cons (star i (ident j x)) ns) = text_eq x struct_name
receives struct_name _ = false

unfoldable pub execute_in : Text → List Decl → Option Nodes
execute_in struct_name [] = none
execute_in struct_name (other_decl ns ∷ ds) = execute_in struct_name ds
execute_in struct_name (func_decl name recv signature body ∷ ds) =
    if text_eq name (codes "Execute") && receives struct_name recv
    then some body
    else execute_in struct_name ds

unfoldable pub execute_body : Text → List (List Decl) → Option Nodes
unfolding execute_in
execute_body struct_name [] = none
execute_body struct_name (f ∷ fs) = elim (execute_in struct_name f) [
  | some body ↦ some body
  | none ↦ execute_body struct_name fs
]

unfoldable pub find_execute_method : Package → Text → Found Nodes
unfolding execute_body
find_execute_method p struct_name = elim (execute_body struct_name p.syntax) [
  | some body ↦ found body
  | none ↦ missing (codes "execute method not found for type " ++ struct_name)
]

abbrev provider_of : Package → Text → List GoType → Option Provider
provider_of p prefix [] = none
provider_of p prefix (t ∷ ts) =
    some (record { prefix = prefix; type = resolve_type_shape p.universe (some t) })

unfoldable pub extract_provider : Package → ℕ → Nodes → Option Provider
extract_provider p i (cons wc (cons prefix rest)) = elim (pointed (p.types i)) [
  | none ↦ none
  | some j ↦ provider_of p (resolve_string_arg p prefix) (p.universe.named_of j).type_args
]
extract_provider p i _ = none

abbrev pub to_list {ℓ} : {A : Type ℓ} → Option A → List A
to_list none = []
to_list (some a) = a ∷ []

abbrev provider_call : Package → Node → List Provider
provider_call p (call i f args) =
    if is_flicker_func p f (codes "NewProvider") then to_list (extract_provider p i args) else []
provider_call p _ = []

abbrev note_provider : Package → Node → List Provider → List Provider × Bool
note_provider p n providers = (providers ++ provider_call p n, true)

unfoldable pub extract_factory_providers : Package → Node → List Provider
unfolding inspect is_flicker_func extract_provider
extract_factory_providers p (func_lit i type body) =
    inspect (note_provider p) (func_lit i type body) []
extract_factory_providers p _ = []
