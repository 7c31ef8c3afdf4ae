-- ===== src/World.antt =====
-- What an operation reads and writes: the database, the clock, and the failures of the driver. An
-- operation of the program that returns `(A, error)` is an action `Exec A`.
use flicker.Prelude.{ℕ, ◌≡◌, refl, suc, List, Option, none, some, Text}
use flicker.Time.{Time}
use flicker.Errors.{Error, plain, wrapped, Result, ok, err}
use flicker.Records.{Status, Signal}

-- The rows of the three tables that `migrate` creates; times are TEXT columns.
pub record WorkflowRow : Type 0 where
  pub id : Text
  pub type : Text
  pub version : Text
  pub status : Status
  pub signal : Signal
  pub payload : Text
  pub result : Option Text
  pub error : Text
  pub retry_after : Text
  pub attempts : ℕ
  pub occ_version : ℕ
  pub created_at : Text
  pub updated_at : Text

pub record StepRow : Type 0 where
  pub type : Text
  pub version : Text
  pub workflow_id : Text
  pub step_name : Text
  pub result : Option Text
  pub error : Text
  pub created_at : Text

pub record SubscriptionRow : Type 0 where
  pub correlation_key : Text
  pub workflow_id : Text
  pub type : Text
  pub version : Text
  pub step_name : Text
  pub deadline : Text
  pub created_at : Text

pub record Tables : Type 0 where
  pub workflows : List WorkflowRow
  pub step_results : List StepRow
  pub subscriptions : List SubscriptionRow

-- `clock n` is the n-th reading of a clock and `driver n` the outcome of the n-th call of the
-- database driver, `some` for an error; `ids n` is the n-th text of the ID function. `seen_steps` is the set of the running workflow, shared by
-- all its scopes; `leases` is the map of the lease store.
pub record World : Type 0 where
  pub tables : Tables
  pub clock : ℕ → Time
  pub readings : ℕ
  pub driver : ℕ → Option Text
  pub calls : ℕ
  pub ids : ℕ → Text
  pub generated : ℕ
  pub seen_steps : List Text
  pub leases : List Text

abbrev pub Exec {ℓ} : Type ℓ → Type ℓ
Exec A = World → Result A × World

module _ {ℓ} {A : Type ℓ} where
  abbrev pub pure : A → Exec A
  pure a w = (ok a, w)

  abbrev pub raise : Error → Exec A
  raise e w = (err e, w)

  abbrev pub lift : Result A → Exec A
  lift r w = (r, w)

  abbrev pub gets : (World → A) → Exec A
  gets f w = (ok (f w), w)

  -- `fmt.Errorf("text: %w", err)` on the error path.
  abbrev pub wrap_error : Text → Result A → Result A
  wrap_error s (ok a) = ok a
  wrap_error s (err e) = err (wrapped s e)

  abbrev pub wrapping : Text → Exec A → Exec A
  wrapping s m w = let (r, w') = m w in (wrap_error s r, w')

abbrev pub continue {ℓ κ} :
    {A : Type ℓ} {B : Type κ} → Result A × World → (A → World → Result B × World) → Result B × World
continue (ok a, w) f = f a w
continue (err e, w) f = (err e, w)

infixl 5 ◌>>=◌ ◌>>◌
abbrev pub ◌>>=◌ {ℓ} : {A B : Type ℓ} → Exec A → (A → Exec B) → Exec B
◌>>=◌ m f w = continue (m w) f

abbrev pub ◌>>◌ {ℓ} : {A B : Type ℓ} → Exec A → Exec B → Exec B
m >> k = m >>= λ _. k

abbrev pub modify : (World → World) → Exec (Unit {0})
modify f w = (ok tt, f w)

abbrev pub put_tables : Tables → World → World
put_tables t w = record w { tables = t }

abbrev pub modify_tables : (Tables → Tables) → Exec (Unit {0})
modify_tables f w = (ok tt, put_tables (f w.tables) w)

-- One reading of the clock.
unfoldable pub now : Exec Time
now w = (ok (w.clock w.readings), record w { readings = suc w.readings })

-- One call of the ID function.
unfoldable pub next_id : Exec Text
next_id w = (ok (w.ids w.generated), record w { generated = suc w.generated })

abbrev outcome : Option Text → Result (Unit {0})
outcome none = ok tt
outcome (some s) = err (plain s)

-- One call of the driver.
unfoldable pub call : Exec (Unit {0})
call w = (outcome (w.driver w.calls), record w { calls = suc w.calls })

-- Inversion of an action that returns.
pub continue-eq-ok {ℓ κ} :
    {A : Type ℓ} {B : Type κ} (m : Result A × World) (f : A → World → Result B × World) {b : B}
    {w : World}
    → continue m f ≡ (ok b, w)
    → (a : A) × (v : World) × (m ≡ (ok a, v)) × (f a v ≡ (ok b, w))
continue-eq-ok (ok a, v) f h = (a, v, refl, h)
continue-eq-ok (err e, v) f h = cc
