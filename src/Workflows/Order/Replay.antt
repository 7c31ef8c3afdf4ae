-- ===== src/Workflows/Order/Replay.antt =====
-- The order workflow, executed again: what the results in the table decide.
use flicker.Prelude.{
  sym, suc, ◌≡◌, refl, ◌∙◌, true, false, List, [], Bool-cases, inl, inr, Text, codes, text_eq,
  if◌then◌else◌,
}
use flicker.Time.{Time, before, decimal}
use flicker.Errors.{suspend, ok, err}
use flicker.Records.{WorkflowRecord, StepResult}
use flicker.World.{World, Exec, now}
use flicker.Leases.{contains}
use flicker.Context.{WorkflowContext, under}
use flicker.Steps.Durable.{Holds}
use flicker.Steps.Replay.{after_replay}
use flicker.Steps.Resumed.{IsResumed, after_replay-IsResumed, after_replay-Holds, run_recorded}
use flicker.Waits.{returning, numbered, sleep_until}
use flicker.Runner.{context_of}
use flicker.Workflows.Order.{
  Request, User, Reservation, PaymentResult, OrderResult, Dependencies, fetch_user,
  reserve_inventory, check_payment, order_result, save_result, wait_and_settle, settle, execute,
}

module _ (d : Dependencies) (r : WorkflowRecord) (steps : List StepResult) (req : Request) where
  abbrev context : WorkflowContext
  context = context_of r steps

  -- The world after the first two steps were read back.
  abbrev pub behind_reservation : World → World
  behind_reservation u =
      after_replay context (codes "reserve_inventory") (after_replay context (codes "fetch_user") u)

  execute_recorded :
      (user : User) (reservation : Reservation) (u : World)
      → u.seen_steps ≡ []
      → IsResumed context u
      → Holds d.UserJson context (codes "fetch_user") user u
      → Holds d.ReservationJson context (codes "reserve_inventory") reservation u
      → execute d context req u ≡ wait_and_settle d context req reservation (behind_reservation u)
  unfolding execute contains under text_eq
  execute_recorded user reservation u fresh h first second =
      let e₁ =
        run_recorded d.UserJson context (codes "fetch_user") (returning (fetch_user d req)) u user h
          (rw fresh refl) first in
      let v : World = after_replay context (codes "fetch_user") u in
      let e₂ =
        run_recorded d.ReservationJson context (codes "reserve_inventory")
          (returning (reserve_inventory d)) v reservation
          (after_replay-IsResumed context (codes "fetch_user") u h) (rw fresh refl)
          (after_replay-Holds d.ReservationJson context (codes "reserve_inventory")
            (codes "fetch_user") reservation u second) in
      rw e₁ (rw e₂ refl)

  abbrev sleep_step : Text
  sleep_step = codes "_sleep.until:1"

  -- The world in which the clock was read behind the sleep, and the context with its counter raised.
  abbrev behind_sleep : World → World
  behind_sleep w =
      let v = after_replay context sleep_step w in record v { readings = suc v.readings }

  abbrev woken : WorkflowContext
  woken = record context { sleep_counter = 1 }

  wait_recorded :
      (reservation : Reservation) (stored : Time) (w : World)
      → contains sleep_step w.seen_steps ≡ false
      → IsResumed context w
      → Holds d.TimeJson context sleep_step stored w
      → wait_and_settle d context req reservation w ≡ (
          if before (w.clock w.readings) stored
          then (err (suspend stored), behind_sleep w)
          else settle d woken req reservation (behind_sleep w))
  unfolding wait_and_settle sleep_until numbered decimal under now
  wait_recorded reservation stored w unseen h held =
      let e =
        run_recorded d.TimeJson context sleep_step
          (returning (λ w'. (ok reservation.expires_at, w'))) w stored h unseen held in
      elim (Bool-cases (before (w.clock w.readings) stored)) [
        | inl early ↦ rw e (rw early refl)
        | inr due ↦ rw e (rw due refl)
      ]

  settle_recorded :
      (reservation : Reservation) (payment : PaymentResult) (o : OrderResult) (w : World)
      → contains (codes "check_payment") w.seen_steps ≡ false
      → contains (codes "save_result") w.seen_steps ≡ false
      → IsResumed woken w
      → Holds d.PaymentJson woken (codes "check_payment") payment w
      → Holds d.ResultJson woken (codes "save_result") o w
      → settle d woken req reservation w ≡ (
        ok o,
        after_replay woken (codes "save_result") (after_replay woken (codes "check_payment") w),
      )
  unfolding settle under contains text_eq
  settle_recorded reservation payment o w new_payment new_result h paid saved =
      let e₁ =
        run_recorded d.PaymentJson woken (codes "check_payment") (returning (check_payment d req)) w
          payment h new_payment paid in
      let v : World = after_replay woken (codes "check_payment") w in
      let e₂ =
        run_recorded d.ResultJson woken (codes "save_result")
          (save_result d (order_result req reservation payment)) v o
          (after_replay-IsResumed woken (codes "check_payment") w h) new_result
          (after_replay-Holds d.ResultJson woken (codes "save_result") (codes "check_payment") o w
            saved) in
      rw e₁ (rw e₂ refl)

-- The inventory is reserved once. Where an earlier execution recorded the user and the reservation, a
-- later one goes on with the recorded reservation: it sends no request for either, and the way to send
-- a reservation request does not matter to it. The later execution starts with no step seen, each
-- prefetched result is its row in the table, no cancellation is requested and the driver does not fail.
pub reserved_once :
    (d : Dependencies) (post' : Text → Exec Text) (r : WorkflowRecord) (steps : List StepResult)
    (req : Request) (user : User) (reservation : Reservation) (u : World)
    → u.seen_steps ≡ []
    → IsResumed (context_of r steps) u
    → Holds d.UserJson (context_of r steps) (codes "fetch_user") user u
    → Holds d.ReservationJson (context_of r steps) (codes "reserve_inventory") reservation u
    → (execute d (context_of r steps) req u
        ≡ wait_and_settle d
            (context_of r steps)
            req
            reservation
            (behind_reservation d r steps req u))
      × (execute (record d { post = post' }) (context_of r steps) req u
          ≡ execute d (context_of r steps) req u)
unfolding wait_and_settle settle
reserved_once d post' r steps req user reservation u fresh h first second =
    let e = execute_recorded d r steps req user reservation u fresh h first second in
    (
      e,
      execute_recorded (record d { post = post' }) r steps req user reservation u fresh h first
            second
          ∙ sym e,
    )

module _ (d : Dependencies) (r : WorkflowRecord) (steps : List StepResult) (req : Request)
    (user : User) (reservation : Reservation) (stored : Time) (u : World)
    (fresh : u.seen_steps ≡ []) (resumed : IsResumed (context_of r steps) u)
    (first : Holds d.UserJson (context_of r steps) (codes "fetch_user") user u)
    (second : Holds d.ReservationJson
      (context_of r steps)
      (codes "reserve_inventory")
      reservation
      u)
    (slept : Holds d.TimeJson (context_of r steps) (codes "_sleep.until:1") stored u) where
  abbrev wc : WorkflowContext
  wc = context_of r steps

  abbrev reserved : World
  reserved = behind_reservation d r steps req u

  execute_slept : execute d wc req u ≡ (
      if before (u.clock u.readings) stored
      then (err (suspend stored), behind_sleep d r steps req reserved)
      else settle d (woken d r steps req) req reservation (behind_sleep d r steps req reserved))
  unfolding contains text_eq
  execute_slept =
      execute_recorded d r steps req user reservation u fresh resumed first second
      ∙ wait_recorded d r steps req reservation stored reserved (rw fresh refl)
          (after_replay-IsResumed wc (codes "reserve_inventory")
            (after_replay wc (codes "fetch_user") u)
            (after_replay-IsResumed wc (codes "fetch_user") u resumed))
          (after_replay-Holds d.TimeJson wc (codes "_sleep.until:1") (codes "reserve_inventory")
            stored (after_replay wc (codes "fetch_user") u)
            (after_replay-Holds d.TimeJson wc (codes "_sleep.until:1") (codes "fetch_user") stored u
              slept))

  -- The reservation is waited for. Where the user, the reservation and the end of the sleep are recorded
  -- and the clock is before that end, the execution suspends the workflow until it, whatever else is
  -- recorded, and leaves the tables as they are.
  execute_waits :
      before (u.clock u.readings) stored ≡ true
      → ((execute d wc req u).0 ≡ err (suspend stored)) × ((execute d wc req u).1.tables ≡ u.tables)
  execute_waits early = rw execute_slept (rw early (refl, refl))

  -- A completed order is not settled again. Where also the payment and the result are recorded and the
  -- clock has reached the end of the sleep, the execution returns the recorded result and leaves the
  -- tables as they are, whatever the client and the repository would answer now.
  execute_completed :
      (payment : PaymentResult) (o : OrderResult)
      → Holds d.PaymentJson (context_of r steps) (codes "check_payment") payment u
      → Holds d.ResultJson (context_of r steps) (codes "save_result") o u
      → before (u.clock u.readings) stored ≡ false
      → ((execute d wc req u).0 ≡ ok o) × ((execute d wc req u).1.tables ≡ u.tables)
  unfolding contains text_eq
  execute_completed payment o paid saved due =
      let w : World = behind_sleep d r steps req reserved in
      let e =
        settle_recorded d r steps req reservation payment o w (rw fresh refl) (rw fresh refl)
          (record {
            same_results = resumed.same_results;
            row = resumed.row;
            present = resumed.present;
            calm = resumed.calm;
            answers = resumed.answers;
          })
          (record {
            row = paid.row;
            found = paid.found;
            no_error = paid.no_error;
            decodes = paid.decodes;
            time = paid.time;
            stamped = paid.stamped;
          })
          (record {
            row = saved.row;
            found = saved.found;
            no_error = saved.no_error;
            decodes = saved.decodes;
            time = saved.time;
            stamped = saved.stamped;
          }) in
      rw execute_slept (rw due (rw e (refl, refl)))
