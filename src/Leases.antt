-- ===== src/Leases.antt =====
-- lease.go: the lease store in memory. Each method holds the mutex, so it is one action.
pub mod Refines
use flicker.Prelude.{
  Bool, true, false, not, List, [], ◌∷◌, ◌||◌, Text, text_eq, filter, if◌then◌else◌,
}
use flicker.Errors.{ok}
use flicker.World.{Exec}

unfoldable pub contains : Text → List Text → Bool
contains id [] = false
contains id (x ∷ xs) = text_eq x id || contains id xs

-- `delete(s.leases, workflowID)`.
unfoldable pub remove : Text → List Text → List Text
unfolding filter
remove id ids = filter (λ x. not (text_eq x id)) ids

unfoldable pub acquire : Text → Exec Bool
unfolding contains
acquire id w =
    if contains id w.leases then (ok false, w) else (ok true, record w { leases = id ∷ w.leases })

unfoldable pub release : Text → Exec (Unit {0})
unfolding remove
release id w = (ok tt, record w { leases = remove id w.leases })

unfoldable pub is_held : Text → Exec Bool
unfolding contains
is_held id w = (ok (contains id w.leases), w)
