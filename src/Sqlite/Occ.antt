-- ===== src/Sqlite/Occ.antt =====
-- The optimistic concurrency control of sqlite/sqlite.go: what a write at an expected version does.
use flicker.Prelude.{
  ℕ, suc, ◌+◌, ◌≡◌, ◌≢◌, refl, ap, ◌∙◌, inl, inr, List, [], ◌∷◌, Option, none, some, Option-cases,
  arith, Text, codes, text_eq_iff, find?, find?-holds, count_where, map_where, ◌==◌, if◌then◌else◌,
}
use flicker.Time.{Time, format_time}
use flicker.Errors.{occ_conflict, ok, err}
use flicker.World.{WorkflowRow, World, Exec}
use flicker.Records.{Status, pending, suspended}
use flicker.Sqlite.Workflows.{
  update_status, set_error, set_retry, suspend, has_id, at_version, versioned, update_versioned,
}

-- The row of an identifier.
abbrev pub workflow_of : Text → World → Option WorkflowRow
workflow_of id w = find? (has_id id) w.tables.workflows

-- The primary key: no identifier stands in two rows.
abbrev pub IdsDistinct : List WorkflowRow → Type 0
IdsDistinct [] = Unit
IdsDistinct (r ∷ rs) = (find? (has_id r.id) rs ≡ none) × IdsDistinct rs

-- What a versioned write makes of one row.
abbrev pub rewritten :
    Text → ℕ → (WorkflowRow → WorkflowRow) → Option WorkflowRow → Option WorkflowRow
rewritten id n f none = none
rewritten id n f (some r) = some (if at_version id n r then f r else r)

abbrev matches : ℕ → Option WorkflowRow → ℕ
matches n none = 0
matches n (some r) = if r.occ_version == n then 1 else 0

module _ (id : Text) (n : ℕ) where
  pub find?-map_where :
      (t : Time) (set' : WorkflowRow → WorkflowRow) (j : Text) (rows : List WorkflowRow)
      → find? (has_id j) (map_where (at_version id n) (versioned t set') rows)
        ≡ rewritten id n (versioned t set') (find? (has_id j) rows)
  unfolding find? map_where
  find?-map_where t set' j [] = refl
  find?-map_where t set' j (r ∷ rs) = ground (arith, find?-map_where t set' j rs)

  pub count_where-at_version :
      (rows : List WorkflowRow)
      → IdsDistinct rows
      → count_where (at_version id n) rows ≡ matches n (find? (has_id id) rows)
  unfolding find? count_where
  count_where-at_version [] d = refl
  count_where-at_version (r ∷ rs) d =
      ground (arith, count_where-at_version rs d.1, text_eq_iff r.id id, d.0)

  map_where-none :
      (f : WorkflowRow → WorkflowRow) (rows : List WorkflowRow)
      → count_where (at_version id n) rows ≡ 0
      → map_where (at_version id n) f rows ≡ rows
  unfolding count_where map_where
  map_where-none f [] h = refl
  map_where-none f (r ∷ rs) h = ground (arith, map_where-none f rs)

  module _ (what : Text) (set' : WorkflowRow → WorkflowRow) (w : World) where
    -- A write that returns has found the expected version, and has rewritten that row alone.
    pub update_versioned-eq-ok :
        (v : World)
        → IdsDistinct w.tables.workflows
        → update_versioned what id n set' w ≡ (ok tt, v)
        → (r : WorkflowRow) × (workflow_of id w ≡ some r)
          × (r.occ_version ≡ n)
          × (v.tables ≡ record w.tables {
            workflows =
                map_where
                  (at_version id n)
                  (versioned (w.clock w.readings) set')
                  w.tables.workflows;
          })
    unfolding update_versioned
    update_versioned-eq-ok v d h = elim (Option-cases (workflow_of id w)) [
      | inl e ↦ absurd (ground (arith, count_where-at_version w.tables.workflows d))
      | inr (r, e) ↦
          (r, e, ground (arith, count_where-at_version w.tables.workflows d), ground arith)
    ]

    -- A write at another version is refused, and changes no table.
    pub update_versioned_conflict :
        IdsDistinct w.tables.workflows
        → matches n (workflow_of id w) ≡ 0
        → w.driver w.calls ≡ none
        → w.driver (suc w.calls) ≡ none
        → update_versioned what id n set' w
          ≡ (err occ_conflict, record w { readings = suc w.readings; calls = suc (suc w.calls) })
    unfolding update_versioned
    update_versioned_conflict d stale first second = ground (
      arith,
      count_where-at_version w.tables.workflows d,
      map_where-none (versioned (w.clock w.readings) set') w.tables.workflows,
    )

  module _ (t : Time) (set' : WorkflowRow → WorkflowRow) where
    none-map_where :
        (j : Text) (rows : List WorkflowRow)
        → find? (has_id j) rows ≡ none
        → find? (has_id j) (map_where (at_version id n) (versioned t set') rows) ≡ none
    none-map_where j rows h = rw (find?-map_where t set' j rows, h) refl

    pub IdsDistinct-map_where :
        (rows : List WorkflowRow)
        → IdsDistinct rows
        → IdsDistinct (map_where (at_version id n) (versioned t set') rows)
    unfolding map_where
    IdsDistinct-map_where [] d = tt
    IdsDistinct-map_where (r ∷ rs) d =
        ground (arith, none-map_where r.id rs d.0, IdsDistinct-map_where rs d.1)

    -- After a write the row is past the version that the write expected.
    matches_after :
        (rows : List WorkflowRow)
        → matches n (rewritten id n (versioned t set') (find? (has_id id) rows)) ≡ 0
    unfolding find?
    matches_after [] = refl
    matches_after (r ∷ rs) = ground (arith, matches_after rs)

-- The four writes that a runner makes at the version that it read.
pub data Write : Type 0 where
  to_status : Status → Option Text → Write
  to_error : Status → Text → Write
  to_retry : Time → Write
  to_suspended : Time → Write

abbrev pub write : Write → Text → ℕ → Exec (Unit {0})
write (to_status s result) id n = update_status id s result n
write (to_error s message) id n = set_error id s message n
write (to_retry t) id n = set_retry id t n
write (to_suspended t) id n = suspend id t n

abbrev label : Write → Text
label (to_status s result) = codes "update status"
label (to_error s message) = codes "set error"
label (to_retry t) = codes "set retry"
label (to_suspended t) = codes "suspend"

-- The columns that a write sets beside the version and the time of the update.
abbrev pub columns : Write → WorkflowRow → WorkflowRow
columns (to_status s result) r = record r { status = s; result = result }
columns (to_error s message) r = record r { status = s; error = message }
columns (to_retry t) r = record r {
  status = pending;
  retry_after = format_time t;
  attempts = r.attempts + 1;
}
columns (to_suspended t) r = record r { status = suspended; retry_after = format_time t }

write_lem :
    (c : Write) (id : Text) (n : ℕ) → write c id n ≡ update_versioned (label c) id n (columns c)
unfolding update_status set_error set_retry suspend
write_lem (to_status s result) id n = refl
write_lem (to_error s message) id n = refl
write_lem (to_retry t) id n = refl
write_lem (to_suspended t) id n = refl

versioned-columns :
    (c : Write) (n : ℕ) (t : Time) (r : WorkflowRow)
    → r.occ_version ≡ n
    → versioned t (columns c) r
      ≡ record (columns c r) { occ_version = n + 1; updated_at = format_time t }
versioned-columns (to_status s result) n t r h = rw h
versioned-columns (to_error s message) n t r h = rw h
versioned-columns (to_retry due) n t r h = rw h
versioned-columns (to_suspended due) n t r h = rw h

pub rewritten_same :
    (id : Text) (n : ℕ) (f : WorkflowRow → WorkflowRow) (rows : List WorkflowRow) (r : WorkflowRow)
    → find? (has_id id) rows ≡ some r
    → r.occ_version ≡ n
    → rewritten id n f (find? (has_id id) rows) ≡ some (f r)
rewritten_same id n f rows r found expected =
    rw found (ground (arith, find?-holds (has_id id) rows r found))

rewritten_other :
    (id : Text) (n : ℕ) (f : WorkflowRow → WorkflowRow) (j : Text) (rows : List WorkflowRow)
    → j ≢ id
    → rewritten id n f (find? (has_id j) rows) ≡ find? (has_id j) rows
unfolding find?
rewritten_other id n f j [] ne = refl
rewritten_other id n f j (r ∷ rs) ne =
    ground (arith, rewritten_other id n f j rs ne, text_eq_iff r.id id, text_eq_iff r.id j)

-- A write that returns has found the version that it expected. It has set its columns in that row,
-- the version to one more than the expected one and the time of the update to that of the clock, and left the row of any other identifier and the other tables as they
-- were. No identifier may stand in two rows before.
pub write-eq-ok :
    (c : Write) (id j : Text) (n : ℕ) (w v : World)
    → IdsDistinct w.tables.workflows
    → j ≢ id
    → write c id n w ≡ (ok tt, v)
    → (r : WorkflowRow) × (workflow_of id w ≡ some r)
      × (r.occ_version ≡ n)
      × (workflow_of id v
          ≡ some (record (columns c r) {
            occ_version = n + 1;
            updated_at = format_time (w.clock w.readings);
          }))
      × (workflow_of j v ≡ workflow_of j w)
      × (v.tables.step_results ≡ w.tables.step_results)
      × (v.tables.subscriptions ≡ w.tables.subscriptions)
write-eq-ok c id j n w v d ne h =
    let t : Time = w.clock w.readings in
    let (r, found, expected, tables) =
      update_versioned-eq-ok id n (label c) (columns c) w v d (rw write_lem at h) in
    (
      r,
      found,
      expected,
      ap (λ x. find? (has_id id) x.workflows) tables
          ∙ find?-map_where id n t (columns c) id w.tables.workflows
          ∙ rewritten_same id n _ w.tables.workflows r found expected
          ∙ ap some (versioned-columns c n t r expected),
      ap (λ x. find? (has_id j) x.workflows) tables
          ∙ find?-map_where id n t (columns c) j w.tables.workflows
          ∙ rewritten_other id n _ j w.tables.workflows ne,
      ap (λ x. x.step_results) tables,
      ap (λ x. x.subscriptions) tables,
    )

-- Of two writes of one workflow at one version the second is refused as a conflict and changes no
-- table, where the first succeeded, the tables are as it left them, the two calls of the driver
-- succeed, and no identifier stands in two rows.
write_twice :
    (c e : Write) (id : Text) (n : ℕ) (w v u : World)
    → IdsDistinct w.tables.workflows
    → write c id n w ≡ (ok tt, v)
    → u.tables ≡ v.tables
    → u.driver u.calls ≡ none
    → u.driver (suc u.calls) ≡ none
    → write e id n u
      ≡ (err occ_conflict, record u { readings = suc u.readings; calls = suc (suc u.calls) })
write_twice c e id n w v u d h same first second =
    let t : Time = w.clock w.readings in
    let (r, found, expected, tables) =
      update_versioned-eq-ok id n (label c) (columns c) w v d (rw write_lem at h) in
    rw write_lem (
      update_versioned_conflict id n (label e) (columns e) u
        (rw (same, tables) (IdsDistinct-map_where id n t (columns c) w.tables.workflows d))
        (rw (same, tables, find?-map_where id n t (columns c) id w.tables.workflows)
          (matches_after id n t (columns c) w.tables.workflows))
        first second)

-- A write that returns leaves its row at the next version.
pub write_raises :
    (c : Write) (id : Text) (n : ℕ) (w v : World)
    → IdsDistinct w.tables.workflows
    → write c id n w ≡ (ok tt, v)
    → (q : WorkflowRow) × (workflow_of id v ≡ some q) × (q.occ_version ≡ n + 1)
write_raises c id n w v d h =
    let t : Time = w.clock w.readings in
    let (r, found, expected, tables) =
      update_versioned-eq-ok id n (label c) (columns c) w v d (rw write_lem at h) in
    (
      versioned t (columns c) r,
      ap (λ x. find? (has_id id) x.workflows) tables
          ∙ find?-map_where id n t (columns c) id w.tables.workflows
          ∙ rewritten_same id n _ w.tables.workflows r found expected,
      ap (λ m. m + 1) expected,
    )

-- A write at another version than that of its row is refused as a conflict.
pub write_stale :
    (c : Write) (id : Text) (n : ℕ) (u : World) (q : WorkflowRow)
    → IdsDistinct u.tables.workflows
    → workflow_of id u ≡ some q
    → q.occ_version ≢ n
    → u.driver u.calls ≡ none
    → u.driver (suc u.calls) ≡ none
    → write c id n u
      ≡ (err occ_conflict, record u { readings = suc u.readings; calls = suc (suc u.calls) })
write_stale c id n u q d found stale first second = rw write_lem (
    update_versioned_conflict id n (label c) (columns c) u d (ground (arith, found, stale)) first
      second)
