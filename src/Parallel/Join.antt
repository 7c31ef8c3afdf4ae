-- ===== src/Parallel/Join.antt =====
-- What `Parallel` returns for the errors of its branches, told without the loop's variables.
use Prim.Native.Nat.{max}
use flicker.Prelude.{
  ℕ, ◌≤◌, ◌≡◌, refl, subst, List, [], ◌∷◌, Option, none, some, arith, All, Option-cases, inl, inr,
}
use flicker.Time.{Time}
use flicker.Errors.{Error, suspend, is_suspend}
use flicker.Parallel.{Joined, join_error, join_from, join_errors, priority}

-- The first error of a branch that is no suspension.
abbrev pub first_failure : List (Option Error) → Option Error
first_failure [] = none
first_failure (none ∷ es) = first_failure es
first_failure (some e ∷ es) = elim (is_suspend e) [ none ↦ some e | some t ↦ first_failure es ]

abbrev latest_of : Option Time → Option Time → Option Time
latest_of none o = o
latest_of (some t) none = some t
latest_of (some t) (some u) = some (max t u)

abbrev branch_suspend : Option Error → Option Time
branch_suspend none = none
branch_suspend (some e) = is_suspend e

-- The latest time that a suspended branch waits for.
abbrev pub latest_suspend : List (Option Error) → Option Time
latest_suspend [] = none
latest_suspend (e ∷ es) = latest_of (branch_suspend e) (latest_suspend es)

abbrev pub failure_or : Option Error → Option Error → Option Error
failure_or none o = o
failure_or (some e) o = some e

abbrev pub suspended_until : Option Time → Option Error
suspended_until none = none
suspended_until (some t) = some (suspend t)

latest_of_assoc : (a b c : Option Time) → latest_of (latest_of a b) c ≡ latest_of a (latest_of b c)
latest_of_assoc none b c = refl
latest_of_assoc (some t) none c = refl
latest_of_assoc (some t) (some u) none = refl
latest_of_assoc (some t) (some u) (some x) = ground arith

join_from_lem :
    (j : Joined) (es : List (Option Error))
    → join_from j es ≡ record {
      latest_suspend = latest_of j.latest_suspend (latest_suspend es);
      first_err = failure_or j.first_err (first_failure es);
    }
unfolding join_from join_error
join_from_lem j [] = ground arith
join_from_lem j (none ∷ es) = join_from_lem j es
join_from_lem j (some e ∷ es) = ground (
  arith,
  join_from_lem (join_error j e) es,
  latest_of_assoc j.latest_suspend (is_suspend e) (latest_suspend es),
)

priority_lem :
    (failure : Option Error) (latest : Option Time)
    → priority failure latest ≡ failure_or failure (suspended_until latest)
priority_lem none none = refl
priority_lem none (some t) = refl
priority_lem (some e) latest = refl

-- `Parallel` returns the first error of a branch that is no suspension; if there is none, a
-- suspension until the latest time that a suspended branch waits for; and nil if there is neither.
pub join_errors_lem :
    (es : List (Option Error))
    → join_errors es ≡ failure_or (first_failure es) (suspended_until (latest_suspend es))
unfolding join_errors
join_errors_lem es =
    rw (join_from_lem (record { latest_suspend = none; first_err = none }) es)
      (priority_lem (first_failure es) (latest_suspend es))

-- The time that one branch waits for, 0 where it does not wait.
abbrev pub wait_of : Option Error → ℕ
wait_of none = 0
wait_of (some e) = elim (is_suspend e) [ none ↦ 0 | some t ↦ t ]

abbrev pub resume_of : Option Time → ℕ
resume_of none = 0
resume_of (some t) = t

waits_le :
    (m n : ℕ) (es : List (Option Error))
    → m ≤ n
    → All (λ e. wait_of e ≤ m) es
    → All (λ e. wait_of e ≤ n) es
waits_le m n [] h k = tt
waits_le m n (e ∷ es) h k = (omega arith, waits_le m n es h k.1)

resume_of-latest_of :
    (a b : Option Time)
    → (resume_of b ≤ resume_of (latest_of a b)) × (resume_of a ≤ resume_of (latest_of a b))
resume_of-latest_of none b = omega arith
resume_of-latest_of (some t) none = omega arith
resume_of-latest_of (some t) (some u) = omega arith

wait_of-branch_suspend : (e : Option Error) → wait_of e ≡ resume_of (branch_suspend e)
wait_of-branch_suspend none = refl
wait_of-branch_suspend (some e) = ground arith

-- No branch waits longer than the latest suspension.
pub waits-le-latest_suspend :
    (es : List (Option Error)) → All (λ e. wait_of e ≤ resume_of (latest_suspend es)) es
waits-le-latest_suspend [] = tt
waits-le-latest_suspend (e ∷ es) =
    let bounds = resume_of-latest_of (branch_suspend e) (latest_suspend es) in
    (
      rw (wait_of-branch_suspend e) bounds.1,
      waits_le (resume_of (latest_suspend es)) (resume_of (latest_suspend (e ∷ es))) es bounds.0
          (waits-le-latest_suspend es),
    )

-- Where no branch failed, the error that `Parallel` returns suspends the workflow until a time that
-- no suspended branch waits beyond.
join_errors_waits :
    (es : List (Option Error)) (u : Time)
    → first_failure es ≡ none
    → join_errors es ≡ some (suspend u)
    → All (λ e. wait_of e ≤ u) es
join_errors_waits es u calm h =
    let e : latest_suspend es ≡ some u = ground (arith, join_errors_lem es) in
    subst (λ o. All (λ x. wait_of x ≤ resume_of o) es) e (waits-le-latest_suspend es)

-- `Parallel` returns nil only if every branch does.
quiet_at :
    (o : Option Time) (e : Error) (es : List (Option Error))
    → is_suspend e ≡ o
    → first_failure (some e ∷ es) ≡ none
    → latest_suspend (some e ∷ es) ≡ none
    → ⊥
quiet_at none e es p h k = ground (arith, p, h, k)
quiet_at (some t) e es p h k = elim (Option-cases (latest_suspend es)) [
  | inl q ↦ ground (arith, p, q, k)
  | inr (u, q) ↦ ground (arith, p, q, k)
]

quiet :
    (es : List (Option Error))
    → first_failure es ≡ none
    → latest_suspend es ≡ none
    → All (λ e. e ≡ none) es
quiet [] h k = tt
quiet (none ∷ es) h k = (refl, quiet es h (ground (arith, k)))
quiet (some e ∷ es) h k = absurd (quiet_at (is_suspend e) e es refl h k)

join_quiet :
    (a : Option Error) (b : Option Time)
    → failure_or a (suspended_until b) ≡ none
    → (a ≡ none) × (b ≡ none)
join_quiet none none h = (refl, refl)
join_quiet none (some t) h = ground (arith, h)
join_quiet (some e) b h = ground (arith, h)

pub join_errors_quiet : (es : List (Option Error)) → join_errors es ≡ none → All (λ e. e ≡ none) es
join_errors_quiet es h =
    let (calm, awake) =
      join_quiet (first_failure es) (latest_suspend es) (ground (arith, h, join_errors_lem es)) in
    quiet es calm awake
