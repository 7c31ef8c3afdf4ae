-- ===== src/Registry.antt =====
-- registry.go: definitions, `Submit`, and the handles to submitted workflows. `RequestJson` and
-- `ResponseJson` stand for encoding/json at the workflow's types R and Resp.
pub mod Submit
use flicker.Prelude.{
  ◌&&◌, not, List, [], ◌∷◌, ◌++◌, Option, none, some, Text, codes, text_eq, is_empty, filter,
  if◌then◌else◌,
}
use flicker.Errors.{Error, plain, wrapped, Result, ok, err}
use flicker.Records.{
  RetryPolicy, Status, pending, running, signal_none, default_retry_policy, is_pending,
  is_completed,
}
use flicker.World.{World, Exec, pure, lift, wrapping, next_id, ◌>>=◌, ◌>>◌}
use flicker.Sqlite.Workflows.{create, get}
use flicker.Leases.{is_held}
use flicker.Context.{WorkflowContext}
use flicker.Steps.{Json, Outcome, returned, panicked}
use flicker.Runner.{RegistryEntry}

-- `WorkflowDef`: the factory with the `Execute` of the workflow that it builds.
pub record WorkflowDef (R Resp : Type 0) : Type 0 where
  pub name : Text
  pub version : Text
  pub execute : WorkflowContext → R → World → Outcome Resp × World

abbrev pub name_version : Text → Text → Text
name_version name version = name ++ (b':' ∷ version)

abbrev pub json_error : Text → Error
json_error what = wrapped what (plain (codes "json"))

abbrev or_json {ℓ} : {A : Type ℓ} → Text → Option A → Result A
or_json what none = err (json_error what)
or_json what (some a) = ok a

abbrev marshalled : {Resp : Type 0} → Json Resp → Outcome Resp → Outcome Text
marshalled json (returned (ok v)) = returned (or_json (codes "marshal result") (json.marshal v))
marshalled json (returned (err e)) = returned (err e)
marshalled json (panicked v stack) = panicked v stack

module _ {R Resp : Type 0} where
  abbrev pub def_name : WorkflowDef R Resp → Text
  def_name d = name_version d.name d.version

  unfoldable pub execute_workflow :
      Json R
      → Json Resp
      → WorkflowDef R Resp
      → WorkflowContext
      → Text
      → World
      → Outcome Text × World
  execute_workflow RequestJson ResponseJson d wc payload w = elim (RequestJson.unmarshal payload) [
    | none ↦ (returned (err (json_error (codes "unmarshal request"))), w)
    | some req ↦ let (o, w') = d.execute wc req w in (marshalled ResponseJson o, w')
  ]

  -- `Register`: an entry of the same name is replaced.
  unfoldable pub register :
      Json R
      → Json Resp
      → WorkflowDef R Resp
      → Option RetryPolicy
      → List RegistryEntry
      → List RegistryEntry
  unfolding execute_workflow filter
  register RequestJson ResponseJson d policy entries =
      record {
        name = def_name d;
        execute_workflow = execute_workflow RequestJson ResponseJson d;
        retry_policy = elim policy [ none ↦ default_retry_policy | some p ↦ p ];
      }
      ∷ filter (λ e. not (text_eq e.name (def_name d))) entries

  -- `Submit` with the identifier of `WithID`, or the empty text; it returns the instance's own.
  unfoldable pub submit : Json R → WorkflowDef R Resp → R → Text → Exec Text
  unfolding next_id create
  submit RequestJson d request id = do
    id' ← if is_empty id then next_id else pure id
    payload ← lift (or_json (codes "marshal request") (RequestJson.marshal request))
    wrapping (codes "create workflow") (
        create (record {
          id = id';
          type = def_name d;
          version = d.version;
          status = pending;
          signal = signal_none;
          payload = payload;
          result = none;
          error = [];
          retry_after = 0;
          attempts = 0;
          occ_version = 0;
          created_at = 0;
          updated_at = 0;
        }))
    pure id'

-- `deriveStatus`, with a lease store.
unfoldable pub derive_status : Text → Status → Exec Status
unfolding is_held
derive_status id durable =
    if is_pending durable
    then (do
      held ← wrapping (codes "check lease") (is_held id)
      pure (if held then running else durable))
    else pure durable

unfoldable pub status : Text → Exec Status
unfolding get derive_status
status id = do r ← wrapping (codes "get workflow") (get id); derive_status id r.status

unfoldable pub raw_result : Text → Exec (Option Text)
unfolding get
raw_result id = do r ← wrapping (codes "get workflow") (get id); pure r.result

-- `WorkflowResult`; `response` is `none` where it stays the zero value.
pub record WorkflowResult (Resp : Type 0) : Type 0 where
  pub id : Text
  pub type : Text
  pub version : Text
  pub status : Status
  pub response : Option Resp
  pub error : Text

abbrev response_of : {Resp : Type 0} → Json Resp → Status → Option Text → Result (Option Resp)
response_of json s none = ok none
response_of json s (some raw) =
    if is_completed s && not (is_empty raw)
    then elim (json.unmarshal raw) [
      | none ↦ err (json_error (codes "unmarshal result"))
      | some v ↦ ok (some v)
    ]
    else ok none

unfoldable pub typed_result : {Resp : Type 0} → Json Resp → Text → Exec (WorkflowResult Resp)
unfolding get derive_status
typed_result json id = do
  r ← wrapping (codes "get workflow") (get id)
  s ← derive_status id r.status
  v ← lift (response_of json r.status r.result)
  pure (record {
    id = r.id;
    type = r.type;
    version = r.version;
    status = s;
    response = v;
    error = r.error;
  })
