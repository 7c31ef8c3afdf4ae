-- ===== src/Context/Names.antt =====
-- The names of steps under scopes.
use mathlib.Core.List.{append_assoc}
use flicker.Prelude.{◌≡◌, ◌≢◌, refl, sym, ◌∙◌, ap, [], ◌∷◌, ◌++◌, arith, Text, All}
use flicker.Context.{WorkflowContext, under, scope, resolve_step_name}

abbrev pub HasNoSlash : Text → Type 0
HasNoSlash = All (λ c. c ≢ b'/')

split_unique :
    (a b m n : Text)
    → HasNoSlash a
    → HasNoSlash b
    → a ++ (b'/' ∷ m) ≡ b ++ (b'/' ∷ n)
    → (a ≡ b) × (m ≡ n)
split_unique [] [] m n ha hb h = ground arith
split_unique [] (y ∷ ys) m n ha hb h = absurd (ground (arith, hb.0))
split_unique (x ∷ xs) [] m n ha hb h = absurd (ground (arith, ha.0))
split_unique (x ∷ xs) (y ∷ ys) m n ha hb h = ground (arith, split_unique xs ys m n ha.1 hb.1)

cancel_left : (p a b : Text) → p ++ a ≡ p ++ b → a ≡ b
cancel_left [] a b h = h
cancel_left (x ∷ p) a b h = cancel_left p a b (ground arith)

under_child : (p a m : Text) → a ≢ [] → under (under p a) m ≡ under p (a ++ (b'/' ∷ m))
unfolding under
under_child [] [] m h = absurd (h refl)
under_child [] (x ∷ xs) m h = refl
under_child (c ∷ p) a m h = ap (◌∷◌ c) (append_assoc p (b'/' ∷ a) (b'/' ∷ m))

under_injective : (p a b : Text) → under p a ≡ under p b → a ≡ b
unfolding under
under_injective [] a b h = h
under_injective (c ∷ p) a b h = ground (arith, cancel_left (c ∷ p) (b'/' ∷ a) (b'/' ∷ b))

-- Two branches of one context whose names differ, are not empty and hold no slash have no step name
-- in common, whatever their steps are called.
pub scope_disjoint :
    (wc : WorkflowContext) (a b m n : Text)
    → a ≢ b
    → a ≢ []
    → b ≢ []
    → HasNoSlash a
    → HasNoSlash b
    → resolve_step_name (scope wc a) m ≢ resolve_step_name (scope wc b) n
unfolding scope
scope_disjoint wc a b m n ne na nb ha hb h =
    let same : under wc.prefix (a ++ (b'/' ∷ m)) ≡ under wc.prefix (b ++ (b'/' ∷ n)) =
      sym (under_child wc.prefix a m na) ∙ h ∙ under_child wc.prefix b n nb in
    ne (split_unique a b m n ha hb (under_injective wc.prefix _ _ same)).0

-- A branch name that holds a slash names the scope of a nested branch: `Scope("a/b")` and
-- `Scope("a").Scope("b")` give every step the same name.
pub scope_slash :
    (wc : WorkflowContext) (a b m : Text)
    → a ≢ []
    → b ≢ []
    → resolve_step_name (scope wc (a ++ (b'/' ∷ b))) m ≡ resolve_step_name (scope (scope wc a) b) m
unfolding scope
scope_slash wc a b m na nb = ap (λ p. under p m) (sym (under_child wc.prefix a b na))
