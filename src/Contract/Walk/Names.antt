-- ===== src/Contract/Walk/Names.antt =====
-- How a string literal is read: as the name of a step by `classifyStepName`, and as the name of a
-- branch, a provider or a workflow by `resolveStringArg`.
use flicker.Prelude.{ℕ, ◌≡◌, refl, ap, [], ◌∷◌, ◌++◌, some, Text}
use flicker.Contract.Shape.{literal}
use flicker.Contract.Syntax.{basic_lit, Package}
use flicker.Contract.Detect.{before_quote, unquote, constant_value, resolve_string_arg}
use flicker.Contract.Walk.{classify_step_name}

-- A text in double quotes (34), and one in back quotes (96).
abbrev pub quoted : Text → Text
quoted s = 34 ∷ (s ++ (34 ∷ []))

abbrev pub back_quoted : Text → Text
back_quoted s = 96 ∷ (s ++ (96 ∷ []))

before_quote-quoted : (s : Text) → before_quote (s ++ (34 ∷ [])) ≡ some s
unfolding before_quote
before_quote-quoted [] = refl
before_quote-quoted (c ∷ []) = refl
before_quote-quoted (c ∷ d ∷ cs) = rw (before_quote-quoted (d ∷ cs)) refl

unquote-quoted : (s : Text) → unquote (quoted s) ≡ s
unfolding unquote
unquote-quoted s = rw (before_quote-quoted s) refl

module _ (p : Package) (i : ℕ) (s : Text) where
  -- A literal in double quotes, whose constant the type checker prints as it stands, is read alike in
  -- both places: without its quotes.
  quoted_name :
      constant_value p (basic_lit i (quoted s)) ≡ some (quoted s)
      → (classify_step_name p (basic_lit i (quoted s)) ≡ (s, literal))
        × (resolve_string_arg p (basic_lit i (quoted s)) ≡ s)
  unfolding classify_step_name resolve_string_arg
  quoted_name exact =
      (ap (λ t. (t, literal)) (unquote-quoted s), rw (exact, resolve_string_arg) (unquote-quoted s))

  -- A literal in back quotes is read in two ways: as the name of a step it keeps its back quotes, and
  -- anywhere else it is the text between them, as at run time.
  back_quoted_name :
      constant_value p (basic_lit i (back_quoted s)) ≡ some (quoted s)
      → (classify_step_name p (basic_lit i (back_quoted s)) ≡ (back_quoted s, literal))
        × (resolve_string_arg p (basic_lit i (back_quoted s)) ≡ s)
  unfolding classify_step_name resolve_string_arg
  back_quoted_name exact = (refl, rw (exact, resolve_string_arg) (unquote-quoted s))
