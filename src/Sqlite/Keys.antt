-- ===== src/Sqlite/Keys.antt =====
-- The primary key of the table `step_results`: every operation that writes to it keeps it.
use flicker.Prelude.{
  suc, ◌≡◌, refl, sym, ap, ◌∙◌, Bool, true, false, List, [], ◌∷◌, ◌++◌, none, some, Option-cases,
  Bool-cases, inl, inr, arith, Text, text_eq_iff, text_eq_refl, find?, find?-append,
  find?-filter-not, filter, All,
}
use flicker.Time.{Time, format_time}
use flicker.Errors.{Result, ok, err}
use flicker.Records.{StepResult}
use flicker.World.{StepRow, SubscriptionRow, World, Exec, continue}
use flicker.Sqlite.Steps.{has_key, replace_row, save_step_result}
use flicker.Sqlite.Events.{
  deliver, has_correlation_key, event_row, step_error_timeout, is_expired, in_transaction,
  resume_subscription, time_out, time_out_all, expire, time_out_subscriptions,
}
use flicker.Sqlite.Rows.{All-map}

-- The key of a row, and the primary key of the table: no two rows share it.
abbrev pub key_of : StepRow → StepRow → Bool
key_of r = has_key r.type r.version r.workflow_id r.step_name

abbrev pub KeysDistinct : List StepRow → Type 0
KeysDistinct [] = Unit
KeysDistinct (r ∷ rs) = (find? (key_of r) rs ≡ none) × KeysDistinct rs

same_key : (r x : StepRow) → key_of x r ≡ true → key_of r ≡ key_of x
same_key r x h =
    let st : r.type ≡ x.type = ground (arith, text_eq_iff r.type x.type) in
    let sv : r.version ≡ x.version = ground (arith, text_eq_iff r.version x.version) in
    let si : r.workflow_id ≡ x.workflow_id =
      ground (arith, text_eq_iff r.workflow_id x.workflow_id) in
    let sn : r.step_name ≡ x.step_name = ground (arith, text_eq_iff r.step_name x.step_name) in
    rw (st, sv, si, sn) refl

found_below :
    (r : StepRow) (rs : List StepRow)
    → find? (key_of r) rs ≡ none
    → (x : StepRow) → find? (key_of x) rs ≡ some x
    → find? (key_of x) (r ∷ rs) ≡ some x
unfolding find?
found_below r rs fresh x found = elim (Bool-cases (key_of x r)) [
  | inl same ↦ absurd (ground (arith, sym fresh ∙ ap (λ k. find? k rs) (same_key r x same) ∙ found))
  | inr other ↦ ground (arith, other, found)
]

-- In a table with a primary key every row is what its key finds.
pub All-found :
    (rows : List StepRow) → KeysDistinct rows → All (λ x. find? (key_of x) rows ≡ some x) rows
unfolding find?
All-found [] d = tt
All-found (r ∷ rs) d = (
  ground (
    arith,
    text_eq_refl r.type,
    text_eq_refl r.version,
    text_eq_refl r.workflow_id,
    text_eq_refl r.step_name,
  ),
  All-map _ _ (found_below r rs d.0) rs (All-found rs d.1),
)

none-filter :
    (p q : StepRow → Bool) (rows : List StepRow)
    → find? p rows ≡ none
    → find? p (filter q rows) ≡ none
unfolding find? filter
none-filter p q [] h = refl
none-filter p q (r ∷ rs) h = ground (arith, none-filter p q rs)

KeysDistinct-filter :
    (q : StepRow → Bool) (rows : List StepRow) → KeysDistinct rows → KeysDistinct (filter q rows)
unfolding filter
KeysDistinct-filter q [] d = tt
KeysDistinct-filter q (r ∷ rs) d =
    ground (arith, none-filter (key_of r) q rs d.0, KeysDistinct-filter q rs d.1)

key_of_sym : (r s : StepRow) → key_of s r ≡ false → key_of r s ≡ false
key_of_sym r s h = elim (Bool-cases (key_of r s)) [
  | inl same ↦ absurd (
      ground (
        arith,
        ap (λ k. k r) (same_key s r same),
        text_eq_refl r.type,
        text_eq_refl r.version,
        text_eq_refl r.workflow_id,
        text_eq_refl r.step_name,
      ))
  | inr other ↦ other
]

none-append :
    (r s : StepRow) (rs : List StepRow)
    → find? (key_of r) rs ≡ none
    → key_of r s ≡ false
    → find? (key_of r) (rs ++ (s ∷ [])) ≡ none
unfolding find?
none-append r s rs h other = rw (find?-append (key_of r) rs (s ∷ []), h) (rw other)

KeysDistinct-append :
    (s : StepRow) (rows : List StepRow)
    → find? (key_of s) rows ≡ none
    → KeysDistinct rows
    → KeysDistinct (rows ++ (s ∷ []))
unfolding find?
KeysDistinct-append s [] h d = (refl, tt)
KeysDistinct-append s (r ∷ rs) h d = elim (Bool-cases (key_of s r)) [
  | inl same ↦ absurd (ground (arith, same, h))
  | inr other ↦ (
    none-append r s rs d.0 (key_of_sym r s other),
    KeysDistinct-append s rs (ground (arith, other, h)) d.1,
  )
]

pub KeysDistinct-replace_row :
    (s : StepRow) (rows : List StepRow) → KeysDistinct rows → KeysDistinct (replace_row s rows)
unfolding replace_row
KeysDistinct-replace_row s rows d =
    KeysDistinct-append s _ (find?-filter-not (key_of s) rows) (KeysDistinct-filter _ rows d)

abbrev pub HasKey : World → Type 0
HasKey w = KeysDistinct w.tables.step_results

HasKey-in_transaction {ℓ} :
    {A : Type ℓ} (m : Exec A) (w : World)
    → HasKey w
    → HasKey (m w).1
    → HasKey (in_transaction m w).1
unfolding in_transaction
HasKey-in_transaction m w d k = ground (arith, d, k)

save_step_result-HasKey : (r : StepResult) (w : World) → HasKey w → HasKey (save_step_result r w).1
unfolding save_step_result
save_step_result-HasKey r w d = ground (
  arith,
  d,
  KeysDistinct-replace_row
      (record {
        type = r.type;
        version = r.version;
        workflow_id = r.workflow_id;
        step_name = r.step_name;
        result = r.result;
        error = r.error;
        created_at = format_time r.created_at;
      })
      w.tables.step_results d,
)

deliver-HasKey : (key payload : Text) (w : World) → HasKey w → HasKey (deliver key payload w).1
unfolding deliver
deliver-HasKey key payload w d =
    elim (Option-cases (find? (has_correlation_key key) w.tables.subscriptions)) [
      | inl e ↦ ground (arith, d, e)
      | inr (s, e) ↦ ground (
        arith,
        d,
        e,
        KeysDistinct-replace_row (event_row s (some payload) [] (w.clock w.readings))
            w.tables.step_results d,
      )
    ]

time_out-HasKey :
    (t : Time) (s : SubscriptionRow) (w : World) → HasKey w → HasKey (time_out t s w).1
unfolding time_out
time_out-HasKey t s w d = ground (
  arith,
  d,
  KeysDistinct-replace_row (event_row s none step_error_timeout t) w.tables.step_results d,
)

time_out_all-HasKey :
    (t : Time) (subs : List SubscriptionRow) (w : World)
    → HasKey w
    → HasKey (time_out_all t subs w).1
unfolding time_out_all
time_out_all-HasKey t [] w d = d
time_out_all-HasKey t (s ∷ subs) w d =
    go (time_out t s w) (time_out-HasKey t s w d) (λ v. time_out_all-HasKey t subs v)
  where
    go :
        (r : Result (Unit {0}) × World)
        → HasKey r.1
        → ((v : World) → HasKey v → HasKey (time_out_all t subs v).1)
        → HasKey (continue r (λ _. time_out_all t subs)).1
    go (ok a, v) k rest = rest v k
    go (err e, v) k rest = k

expire-HasKey : (t : Time) (w : World) → HasKey w → HasKey (expire t w).1
unfolding expire
expire-HasKey t w d =
    let subs = filter (is_expired t) w.tables.subscriptions in
    let v : World = record w { calls = suc (suc w.calls) } in
    ground (arith, d, time_out_all-HasKey t subs v d)

-- The table of step results never holds two rows of one primary key: `SaveStepResult`,
-- `ResumeSubscription` and `TimeOutSubscriptions` keep that, whether they succeed or fail.
primary_key_kept :
    (r : StepResult) (key payload : Text) (t : Time) (w : World)
    → HasKey w
    → HasKey (save_step_result r w).1
      × HasKey (resume_subscription key payload w).1
      × HasKey (time_out_subscriptions t w).1
unfolding resume_subscription time_out_subscriptions
primary_key_kept r key payload t w d = (
  save_step_result-HasKey r w d,
  HasKey-in_transaction (deliver key payload) w d (deliver-HasKey key payload w d),
  HasKey-in_transaction (expire t) w d (expire-HasKey t w d),
)
