-- ===== src/Contract/Shape.antt =====
-- contract/contract.go. A slice of structs that hold slices of themselves is a list of its own; an
-- omitted pointer is `absent` or `none`.
use flicker.Prelude.{List, Option, Text}

mutual
  pub data TypeShape : Type 0 where
    shape : (name pkg kind : Text) → FieldShapes → (elem key : MaybeShape) → TypeShape

  pub data FieldShapes : Type 0 where
    no_fields : FieldShapes
    field_shape : (name : Text) → TypeShape → (json_tag : Text) → FieldShapes → FieldShapes

  pub data MaybeShape : Type 0 where
    absent : MaybeShape
    present : TypeShape → MaybeShape

pub data StepKind : Type 0 where
  literal constant provider dynamic : StepKind

mutual
  pub data Step : Type 0 where
    step : (name : Text) → StepKind → Option TypeShape → (step_type : Text) → Branches → Step

  pub data Branches : Type 0 where
    no_branches : Branches
    branch : (name : Text) → Steps → Branches → Branches

  pub data Steps : Type 0 where
    no_steps : Steps
    more : Step → Steps → Steps

pub record Provider : Type 0 where
  pub prefix : Text
  pub type : TypeShape

pub record Contract : Type 0 where
  pub name : Text
  pub version : Text
  pub request_type : TypeShape
  pub response_type : TypeShape
  pub steps : Steps
  pub providers : List Provider
  pub errors : List Text
