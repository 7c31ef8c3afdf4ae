-- ===== src/Contract/GoTypes.antt =====
-- What contract/ reads of package go/types: a type is a tree, in which a named type stands as a
-- number, its identity; the table of the named types gives what each is.
use flicker.Prelude.{ℕ, ◌<◌, Bool, List, [], ◌∷◌, Option, Text, text_eq, if◌then◌else◌}

mutual
  pub data GoType : Type 0 where
    named : ℕ → GoType
    struct : Fields → GoType
    pointer slice : GoType → GoType
    map : (key elem : GoType) → GoType
    basic : (name : Text) → GoType
    -- A non-empty interface, and any other type, prints as its text.
    interface : (empty : Bool) → (string : Text) → GoType
    other : (string : Text) → GoType

  -- A struct tag is the list of its pairs of key and value.
  pub data Fields : Type 0 where
    no_fields : Fields
    field : (name : Text) → (exported : Bool) → GoType → List (Text × Text) → Fields → Fields

pub record Named : Type 0 where
  pub name : Text
  pub pkg_path : Option Text
  pub underlying : GoType
  pub type_args : List GoType
  pub string : Text

-- The named types of the loaded packages, numbered below `count`.
pub record Universe : Type 0 where
  pub count : ℕ
  pub named_of : ℕ → Named

-- `StructTag.Get`: the first value under the key, or the empty text.
unfoldable pub tag_get : Text → List (Text × Text) → Text
tag_get key [] = []
tag_get key ((k, v) ∷ tag) = if text_eq k key then v else tag_get key tag

-- Every named type in it has its entry in the table.
abbrev mutual
  pub Within : ℕ → GoType → Type 0
  Within n (named i) = i < n
  Within n (struct fs) = WithinFields n fs
  Within n (pointer t) = Within n t
  Within n (slice t) = Within n t
  Within n (map k v) = Within n k × Within n v
  Within n _ = Unit

  pub WithinFields : ℕ → Fields → Type 0
  WithinFields n no_fields = Unit
  WithinFields n (field name exported t tag fs) = Within n t × WithinFields n fs

pub record IsClosed (u : Universe) : Type 0 where
  pub closed : (i : ℕ) → i < u.count → Within u.count (u.named_of i).underlying
