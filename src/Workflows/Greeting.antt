-- ===== src/Workflows/Greeting.antt =====
-- workflows/greeting/v1. `Json` stands for encoding/json at each type; `Log` has no effect.
pub mod Replay
use flicker.Prelude.{
  ℕ, ◌+◌, ◌≡◌, refl, ◌∷◌, [], ◌++◌, List, Option, none, some, Text, codes, text_eq,
}
use flicker.Time.{Time, rfc3339, decimal}
use flicker.Errors.{ok}
use flicker.Records.{WorkflowRecord, StepResult}
use flicker.World.{World, Exec, pure, ◌>>=◌}
use flicker.Leases.{contains}
use flicker.Context.{WorkflowContext, under, resolve_step_name}
use flicker.Steps.{Json, run}
use flicker.Steps.Durable.{Holds}
use flicker.Steps.Replay.{after_replay}
use flicker.Steps.Resumed.{IsResumed, after_replay-IsResumed, after_replay-Holds, run_recorded}
use flicker.Waits.{returning, numbered, provider_get, time_now}
use flicker.Runner.{context_of}
use flicker.Registry.{WorkflowDef}

pub record Request : Type 0 where
  pub user_id : Text

pub record User : Type 0 where
  pub id : Text
  pub name : Text

pub record Greeting : Type 0 where
  pub message : Text
  pub user_id : Text

-- encoding/json at the types of the steps.
pub record Formats : Type 0 where
  pub UserJson : Json User
  pub TimeJson : Json Time
  pub GreetingJson : Json Greeting

abbrev pub greeting_text : User → Time → Text
greeting_text user t = codes "Hello, " ++ (user.name ++ (codes "! (" ++ (rfc3339 t ++ codes ")")))

abbrev pub greeting_of : User → Time → Greeting
greeting_of user t = record { message = greeting_text user t; user_id = user.id }

unfoldable pub execute : Formats → WorkflowContext → Request → Exec Greeting
unfolding run time_now rfc3339
execute f wc req = do
  user ←
      run f.UserJson wc (codes "fetch_user")
        (returning (pure (record { id = req.user_id; name = codes "Alice" })))
  let (wc', read) = time_now f.TimeJson wc
  t ← read
  run f.GreetingJson wc' (codes "send_greeting") (returning (pure (greeting_of user t)))

-- `Definition`.
abbrev pub definition : Formats → WorkflowDef Request Greeting
definition f = record {
  name = codes "greeting";
  version = codes "v1";
  execute = λ wc req. returning (execute f wc req);
}
