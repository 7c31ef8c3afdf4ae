-- ===== src/Contract/Resolve.antt =====
-- contract/resolve.go. The map `seen` is the list of the named types on the way down, which the
-- deferred `delete` keeps it to. The recursion follows the tree of a type, and at a named type its
-- underlying type, on fuel.
pub mod Termination
pub mod Fuel
pub mod Shaped
use flicker.Prelude.{
  ℕ, zero, suc, Bool, true, false, List, [], ◌∷◌, ◌++◌, Option, none, some, Text, codes, is_empty,
  text_eq, not, ◌&&◌, ◌==◌, if◌then◌else◌,
}
use flicker.Contract.Shape.{TypeShape, shape, FieldShapes, field_shape, MaybeShape, absent, present}
use flicker.Contract.Shape as Shape
use flicker.Contract.GoTypes.{
  GoType, named, struct, pointer, slice, map, basic, interface, other, Fields, no_fields, field,
  Named, Universe, tag_get,
}

infixl 5 ◌>>=◌
abbrev pub ◌>>=◌ {ℓ κ} : {A : Type ℓ} {B : Type κ} → Option A → (A → Option B) → Option B
none >>= f = none
some a >>= f = f a

unfoldable pub kind_from_underlying : GoType → Text
kind_from_underlying (struct fs) = codes "struct"
kind_from_underlying (basic name) = name
kind_from_underlying (slice t) = codes "slice"
kind_from_underlying (map k v) = codes "map"
kind_from_underlying (pointer t) = codes "pointer"
kind_from_underlying (interface empty string) = codes "interface"
kind_from_underlying (other string) = codes "unknown"
kind_from_underlying (named i) = codes "unknown"

abbrev plain_shape : Text → Text → TypeShape
plain_shape name kind = shape name [] kind Shape.no_fields absent absent

abbrev name_of : TypeShape → Text
name_of (shape name _ _ _ _ _) = name

abbrev or_empty : Option Text → Text
or_empty none = []
or_empty (some s) = s

-- `jsonTag[:idx]` at the first comma.
unfoldable pub before_comma : Text → Text
before_comma [] = []
before_comma (c ∷ cs) = if c == b',' then [] else c ∷ before_comma cs

unfoldable pub json_tag : List (Text × Text) → Text
unfolding tag_get before_comma
json_tag tag =
    let value = tag_get (codes "json") tag in
    if not (is_empty value) && not (text_eq value (codes "-")) then before_comma value else []

unfoldable pub contains : ℕ → List ℕ → Bool
contains i [] = false
contains i (j ∷ js) = if j == i then true else contains i js

-- The recursion on the tree; `rec` resolves a named type.
unfoldable mutual
  unfolding json_tag

  pub resolve_impl : (ℕ → Option TypeShape) → GoType → Option TypeShape
  resolve_impl rec (named i) = rec i
  resolve_impl rec (struct fs) = do
    fields ← resolve_struct_fields rec fs
    some (shape [] [] (codes "struct") fields absent absent)
  resolve_impl rec (pointer t) = do
    elem' ← resolve_impl rec t
    some (
        shape (codes "*" ++ name_of elem') [] (codes "pointer") Shape.no_fields (present elem')
          absent)
  resolve_impl rec (slice t) = do
    elem' ← resolve_impl rec t
    some (
        shape (codes "[]" ++ name_of elem') [] (codes "slice") Shape.no_fields (present elem')
          absent)
  resolve_impl rec (map k v) = do
    key ← resolve_impl rec k
    val ← resolve_impl rec v
    some (
        shape (codes "map[" ++ (name_of key ++ (codes "]" ++ name_of val))) [] (codes "map")
          Shape.no_fields (present val) (present key))
  resolve_impl rec (basic name) = some (plain_shape name name)
  resolve_impl rec (interface empty string) =
      some (plain_shape (if empty then codes "any" else string) (codes "interface"))
  resolve_impl rec (other string) = some (plain_shape string (codes "unknown"))

  pub resolve_struct_fields : (ℕ → Option TypeShape) → Fields → Option FieldShapes
  resolve_struct_fields rec no_fields = some Shape.no_fields
  resolve_struct_fields rec (field name exported t tag fs) =
      let rest = resolve_struct_fields rec fs in
      let this = resolve_impl rec t in
      if exported
      then (do type ← this; fields ← rest; some (field_shape name type (json_tag tag) fields))
      else rest

-- The shape of a named type: the fields, the element and the key of its underlying type.
unfoldable pub resolve_underlying : (ℕ → Option TypeShape) → Named → GoType → Option TypeShape
unfolding resolve_impl kind_from_underlying
resolve_underlying rec n (struct fs) = do
  fields ← resolve_struct_fields rec fs
  some (shape n.name (or_empty n.pkg_path) (codes "struct") fields absent absent)
resolve_underlying rec n (slice t) = do
  elem' ← resolve_impl rec t
  some (shape n.name (or_empty n.pkg_path) (codes "slice") Shape.no_fields (present elem') absent)
resolve_underlying rec n (map k v) = do
  key ← resolve_impl rec k
  val ← resolve_impl rec v
  some
      (shape n.name (or_empty n.pkg_path) (codes "map") Shape.no_fields (present val) (present key))
resolve_underlying rec n (pointer t) = do
  elem' ← resolve_impl rec t
  some (shape n.name (or_empty n.pkg_path) (codes "pointer") Shape.no_fields (present elem') absent)
resolve_underlying rec n t =
    some (shape n.name (or_empty n.pkg_path) (kind_from_underlying t) Shape.no_fields absent absent)

unfoldable pub resolve_named : Universe → ℕ → List ℕ → ℕ → Option TypeShape
unfolding resolve_underlying contains
resolve_named u zero seen i = none
resolve_named u (suc fuel) seen i =
    let n = u.named_of i in
    let deeper = resolve_underlying (resolve_named u fuel (i ∷ seen)) n n.underlying in
    if contains i seen then some (plain_shape n.string (codes "recursive")) else deeper

-- One more round than there are named types.
abbrev pub enough : Universe → ℕ
enough u = suc u.count

abbrev unknown_shape : TypeShape
unknown_shape = plain_shape (codes "<unknown>") (codes "unknown")

abbrev pub or_unknown : Option TypeShape → TypeShape
or_unknown none = unknown_shape
or_unknown (some s) = s

-- `none` is a nil type.
unfoldable pub resolve_type_shape : Universe → Option GoType → TypeShape
unfolding resolve_impl resolve_named
resolve_type_shape u none = unknown_shape
resolve_type_shape u (some t) = or_unknown (resolve_impl (resolve_named u (enough u) []) t)
