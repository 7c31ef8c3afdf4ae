-- ===== src/Sqlite/Replace.antt =====
-- What `INSERT OR REPLACE` on the table `step_results` leaves under a key.
use flicker.Prelude.{
  ◌≡◌, refl, ◌∙◌, true, List, [], ◌∷◌, some, Text, text_eq_refl, find?, find?-append,
  find?-filter-not, filter,
}
use flicker.World.{StepRow}
use flicker.Sqlite.Steps.{has_key, replace_row}

has_key_refl :
    (a b c d : Text) (r : StepRow)
    → r.type ≡ a
    → r.version ≡ b
    → r.workflow_id ≡ c
    → r.step_name ≡ d
    → has_key a b c d r ≡ true
has_key_refl a b c d r p q s t =
    rw (p, q, s, t, text_eq_refl a, text_eq_refl b, text_eq_refl c, text_eq_refl d)

-- `INSERT OR REPLACE` leaves the new row under its key.
pub find?-replace_row :
    (s : StepRow) (rows : List StepRow)
    → find? (has_key s.type s.version s.workflow_id s.step_name) (replace_row s rows) ≡ some s
unfolding replace_row
find?-replace_row s rows =
    find?-append _ (filter _ rows) (s ∷ [])
    ∙ (rw (find?-filter-not (has_key s.type s.version s.workflow_id s.step_name) rows)
        (unfold find? in rw (has_key_refl _ _ _ _ s refl refl refl refl)))
