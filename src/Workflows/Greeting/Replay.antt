-- ===== src/Workflows/Greeting/Replay.antt =====
-- The greeting workflow, executed again: the message is made of what was recorded.
use flicker.Prelude.{◌≡◌, refl, [], List, codes, text_eq}
use flicker.Time.{Time, decimal}
use flicker.Records.{WorkflowRecord, StepResult}
use flicker.World.{World, pure, now}
use flicker.Leases.{contains}
use flicker.Context.{WorkflowContext, under}
use flicker.Steps.{run}
use flicker.Steps.Durable.{Holds}
use flicker.Steps.Replay.{after_replay}
use flicker.Steps.Resumed.{IsResumed, after_replay-IsResumed, after_replay-Holds, run_recorded}
use flicker.Waits.{returning, numbered, provider_get, time_now}
use flicker.Runner.{context_of}
use flicker.Workflows.Greeting.{Request, User, Formats, greeting_of, execute}

abbrev pub behind_time : WorkflowContext → World → World
behind_time wc u = after_replay wc (codes "_time.now:1") (after_replay wc (codes "fetch_user") u)

-- A greeting keeps its time. Where the user and the time are recorded, a later execution goes on to send
-- the greeting of the recorded user at the recorded time, in the world as it was but for the
-- steps seen and the queries made. The execution starts with no step
-- seen, each prefetched result is its row in the table, no cancellation is requested and the driver
-- does not fail.
greeting_keeps_time :
    (f : Formats) (r : WorkflowRecord) (steps : List StepResult) (req : Request) (user : User)
    (t : Time) (u : World)
    → u.seen_steps ≡ []
    → IsResumed (context_of r steps) u
    → Holds f.UserJson (context_of r steps) (codes "fetch_user") user u
    → Holds f.TimeJson (context_of r steps) (codes "_time.now:1") t u
    → execute f (context_of r steps) req u
      ≡ run f.GreetingJson
          (record (context_of r steps) { time_counter = 1 })
          (codes "send_greeting")
          (returning (pure (greeting_of user t)))
          (behind_time (context_of r steps) u)
unfolding execute time_now provider_get numbered decimal under contains text_eq
greeting_keeps_time f r steps req user t u fresh h first second =
    let wc : WorkflowContext = context_of r steps in
    let v : World = after_replay wc (codes "fetch_user") u in
    let e₁ =
      run_recorded f.UserJson wc (codes "fetch_user")
        (returning (pure (record { id = req.user_id; name = codes "Alice" }))) u user h
        (rw fresh refl) first in
    let e₂ =
      run_recorded f.TimeJson wc (codes "_time.now:1") (returning now) v t
        (after_replay-IsResumed wc (codes "fetch_user") u h) (rw fresh refl)
        (after_replay-Holds f.TimeJson wc (codes "_time.now:1") (codes "fetch_user") t u second) in
    rw e₁ (rw e₂ refl)
