-- ===== src/Errors.antt =====
-- errors.go and suspend.go, with the errors of package sqlite. An `error` of Go is a chain: a node
-- with `Unwrap` holds the next one. `errors.As` and `errors.Is` walk that chain.
use flicker.Prelude.{
  ◌≡◌, refl, ◌⊎◌, inl, inr, Bool, true, false, ◌||◌, [], ◌∷◌, ◌++◌, Option, none, some, Text, codes,
  ◌==◌, if◌then◌else◌,
}
use flicker.Time.{Time, rfc3339}

pub data Error : Type 0 where
  -- `errors.New`, `fmt.Errorf` with no `%w`, a recovered panic, an error of the driver
  plain : Text → Error
  -- `fmt.Errorf("text: %w", err)`
  wrapped : Text → Error → Error
  permanent : Error → Error
  workflow_execution : Text → Error → Error
  suspend : Time → Error
  definition_not_found : Text → Error
  cancelled event_timeout step_not_found occ_conflict subscription_not_found no_rows : Error

pub data Result {ℓ} (A : Type ℓ) : Type ℓ where
  ok : A → Result A
  err : Error → Result A

-- `%q` of a text of printable ASCII.
unfoldable pub escape : Text → Text
escape [] = []
escape (c ∷ cs) = let rest = escape cs in if c == b'"' || c == 92 then 92 ∷ c ∷ rest else c ∷ rest

abbrev pub quote : Text → Text
quote s = b'"' ∷ (escape s ++ (b'"' ∷ []))

-- `err.Error()`.
unfoldable pub message : Error → Text
unfolding escape
message (plain s) = s
message (wrapped s e) = s ++ (codes ": " ++ message e)
message (permanent e) = message e
message (workflow_execution id e) = codes "workflow " ++ (id ++ (codes ": " ++ message e))
message (suspend t) = codes "workflow suspended until " ++ rfc3339 t
message (definition_not_found type) = codes "no definition registered for " ++ quote type
message cancelled = codes "workflow cancelled"
message event_timeout = codes "event wait timed out"
message step_not_found = codes "step result not found"
message occ_conflict = codes "optimistic concurrency conflict: row not updated"
message subscription_not_found = codes "subscription not found"
message no_rows = codes "sql: no rows in result set"

-- `IsSuspend`: the first `SuspendError` of the chain.
unfoldable pub is_suspend : Error → Option Time
is_suspend (suspend t) = some t
is_suspend (wrapped s e) = is_suspend e
is_suspend (permanent e) = is_suspend e
is_suspend (workflow_execution id e) = is_suspend e
is_suspend _ = none

-- `errors.As(err, &permErr)`: the `Err` of the first `PermanentError` of the chain.
unfoldable pub as_permanent : Error → Option Error
as_permanent (permanent e) = some e
as_permanent (wrapped s e) = as_permanent e
as_permanent (workflow_execution id e) = as_permanent e
as_permanent _ = none

-- `errors.As(err, &cancelledErr)`.
unfoldable pub is_cancelled : Error → Bool
is_cancelled cancelled = true
is_cancelled (wrapped s e) = is_cancelled e
is_cancelled (permanent e) = is_cancelled e
is_cancelled (workflow_execution id e) = is_cancelled e
is_cancelled _ = false

-- `errors.Is(err, ErrStepNotFound)`.
unfoldable pub is_step_not_found : Error → Bool
is_step_not_found step_not_found = true
is_step_not_found (wrapped s e) = is_step_not_found e
is_step_not_found (permanent e) = is_step_not_found e
is_step_not_found (workflow_execution id e) = is_step_not_found e
is_step_not_found _ = false

-- `errors.Is(err, ErrEventTimeout)`.
unfoldable pub is_event_timeout : Error → Bool
is_event_timeout event_timeout = true
is_event_timeout (wrapped s e) = is_event_timeout e
is_event_timeout (permanent e) = is_event_timeout e
is_event_timeout (workflow_execution id e) = is_event_timeout e
is_event_timeout _ = false

-- To split on a computed result and keep the equation.
pub Result-cases {ℓ} :
    {A : Type ℓ} (r : Result A) → ((a : A) × (r ≡ ok a)) ⊎ ((e : Error) × (r ≡ err e))
Result-cases (ok a) = inl (a, refl)
Result-cases (err e) = inr (e, refl)
