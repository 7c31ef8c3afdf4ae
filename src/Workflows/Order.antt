-- ===== src/Workflows/Order.antt =====
-- workflows/order/v1. The HTTP client and the repository are arguments, as the workflow gets them;
-- `Json` stands for encoding/json at each type. `Log` has no effect, and `Amount` is never read.
pub mod Replay
use flicker.Prelude.{◌++◌, Option, none, some, Text, codes, text_eq, if◌then◌else◌}
use flicker.Time.{Time}
use flicker.Errors.{plain, wrapped, Result, ok, err}
use flicker.World.{World, Exec, lift, wrapping, ◌>>=◌, ◌>>◌}
use flicker.Context.{WorkflowContext}
use flicker.Steps.{Json, Outcome, returned, panicked, run}
use flicker.Waits.{returning, sleep_until}
use flicker.Registry.{WorkflowDef}

pub record Request : Type 0 where
  pub order_id : Text
  pub customer_id : Text

pub record User : Type 0 where
  pub id : Text
  pub name : Text
  pub email : Text

pub record Reservation : Type 0 where
  pub id : Text
  pub expires_at : Time

pub record PaymentResult : Type 0 where
  pub status : Text
  pub reference : Text

pub record OrderResult : Type 0 where
  pub order_id : Text
  pub status : Text
  pub payment_ref : Text
  pub reservation_id : Text

-- The dependencies of `NewDefinition`: a request gives the body of the response or an error.
pub record Dependencies : Type 0 where
  pub get : Text → Exec Text
  pub post : Text → Exec Text
  pub base_url : Text
  pub save_order : OrderResult → World → Outcome (Unit {0}) × World
  pub UserJson : Json User
  pub ReservationJson : Json Reservation
  pub TimeJson : Json Time
  pub PaymentJson : Json PaymentResult
  pub ResultJson : Json OrderResult

abbrev decoded {ℓ} : {A : Type ℓ} → Text → Option A → Result A
decoded what none = err (wrapped what (plain (codes "json")))
decoded what (some a) = ok a

-- The body of a response, decoded.
abbrev fetch : {T : Type 0} → Json T → Text → Text → Exec Text → Exec T
fetch json what what_decoded request = do
  body ← wrapping what request
  lift (decoded what_decoded (json.unmarshal body))

unfoldable pub fetch_user : Dependencies → Request → Exec User
fetch_user d req =
    fetch d.UserJson (codes "fetch user") (codes "decode user")
      (d.get (d.base_url ++ (codes "/users/" ++ req.customer_id)))

unfoldable pub reserve_inventory : Dependencies → Exec Reservation
reserve_inventory d =
    fetch d.ReservationJson (codes "reserve inventory") (codes "decode reservation")
      (d.post (d.base_url ++ codes "/inventory/reserve"))

unfoldable pub check_payment : Dependencies → Request → Exec PaymentResult
check_payment d req =
    fetch d.PaymentJson (codes "check payment") (codes "decode payment")
      (d.get (d.base_url ++ (codes "/payments/" ++ req.order_id)))

abbrev pub order_status : PaymentResult → Text
order_status payment =
    if text_eq payment.status (codes "approved") then codes "confirmed" else codes "cancelled"

unfoldable pub order_result : Request → Reservation → PaymentResult → OrderResult
order_result req reservation payment = record {
  order_id = req.order_id;
  status = order_status payment;
  payment_ref = payment.reference;
  reservation_id = reservation.id;
}

abbrev saved : OrderResult → Outcome (Unit {0}) → Outcome OrderResult
saved r (returned (ok tt)) = returned (ok r)
saved r (returned (err e)) = returned (err (wrapped (codes "save order") e))
saved r (panicked v stack) = panicked v stack

unfoldable pub save_result : Dependencies → OrderResult → World → Outcome OrderResult × World
save_result d r w = let (o, w') = d.save_order r w in (saved r o, w')

-- `Execute` behind the reservation, behind the sleep, and whole.
unfoldable pub settle : Dependencies → WorkflowContext → Request → Reservation → Exec OrderResult
unfolding run check_payment order_result save_result
settle d wc req reservation = do
  payment ← run d.PaymentJson wc (codes "check_payment") (returning (check_payment d req))
  run d.ResultJson wc (codes "save_result") (save_result d (order_result req reservation payment))

unfoldable pub wait_and_settle :
    Dependencies → WorkflowContext → Request → Reservation → Exec OrderResult
unfolding sleep_until settle
wait_and_settle d wc req reservation =
    let (wc', sleep) = sleep_until d.TimeJson wc reservation.expires_at in
    sleep >> settle d wc' req reservation

unfoldable pub execute : Dependencies → WorkflowContext → Request → Exec OrderResult
unfolding run fetch_user reserve_inventory wait_and_settle
execute d wc req = do
  user ← run d.UserJson wc (codes "fetch_user") (returning (fetch_user d req))
  reservation ←
      run d.ReservationJson wc (codes "reserve_inventory") (returning (reserve_inventory d))
  wait_and_settle d wc req reservation

-- `NewDefinition`.
abbrev pub new_definition : Dependencies → WorkflowDef Request OrderResult
new_definition d = record {
  name = codes "order";
  version = codes "v1";
  execute = λ wc req. returning (execute d wc req);
}
