-- ===== src/Contract/Walk/Embedded.antt =====
-- Calls of the context's methods on a workflow struct that embeds the context.
use flicker.Prelude.{ℕ, ◌≡◌, refl, false, Text, codes, text_eq, some, Option}
use flicker.Contract.GoTypes.{named, pointer}
use flicker.Contract.Syntax.{ident, selector, call, Nodes, one, Package}
use flicker.Contract.Detect.{is_flicker_func}
use flicker.Contract.Walk.{
  Walker, is_workflow_context_receiver, is_sleep_until_call, is_time_now_call, is_id_new_call,
  note_context_call, inspect_node, inspect_nodes,
}

module _ (p : Package) (i j l k n : ℕ) (x : Text) (args : Nodes) (w : Walker) (value : Option Text)
    (typed : p.types k ≡ some (record { type = one (pointer (named n)); value = value }))
    (not_context : text_eq (p.universe.named_of n).name (codes "WorkflowContext") ≡ false) where
  receiver_unseen : is_workflow_context_receiver p (ident k x) ≡ false
  unfolding is_workflow_context_receiver
  receiver_unseen = rw (typed, is_workflow_context_receiver) (rw not_context refl)

  -- On a variable whose type is a pointer to a struct of another name than `WorkflowContext`, calls of
  -- `x.SleepUntil`, `x.Time.Now` and `x.ID.New`, which Go allows where the struct embeds the context,
  -- add no step and no error: only their arguments are walked.
  embedded_calls_unseen :
      (inspect_node p (call i (selector j (ident k x) (codes "SleepUntil")) args) w
        ≡ inspect_nodes p args w)
      × (inspect_node p
            (call i (selector j (selector l (ident k x) (codes "Time")) (codes "Now")) args)
            w
          ≡ inspect_nodes p args w)
      × (inspect_node p
            (call i (selector j (selector l (ident k x) (codes "ID")) (codes "New")) args)
            w
          ≡ inspect_nodes p args w)
  unfolding inspect_node note_context_call is_sleep_until_call is_time_now_call is_id_new_call
      is_flicker_func text_eq
  embedded_calls_unseen = (
    rw (receiver_unseen, note_context_call, is_sleep_until_call) refl,
    rw receiver_unseen refl,
    rw receiver_unseen refl,
  )
