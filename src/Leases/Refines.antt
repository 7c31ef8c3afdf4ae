-- ===== src/Leases/Refines.antt =====
-- The contract of `LeaseStore` in lease.go, and the store in memory as an implementation of it.
use flicker.Prelude.{
  ◌≡◌, refl, ap, ◌∙◌, Bool, true, false, not, ◌||◌, List, [], ◌∷◌, arith, Text, text_eq,
  text_eq_iff, filter, if◌then◌else◌,
}
use flicker.Errors.{Result, ok}
use flicker.World.{World, Exec, pure, ◌>>◌}
use flicker.Leases.{contains, remove, acquire, release, is_held}

-- A lease that was removed is not held; the others are as before.
pub contains-remove :
    (id j : Text) (ids : List Text)
    → contains j (remove id ids) ≡ (if text_eq id j then false else contains j ids)
unfolding contains remove filter
contains-remove id j [] = ground arith
contains-remove id j (x ∷ xs) =
    ground (arith, contains-remove id j xs, text_eq_iff x id, text_eq_iff x j, text_eq_iff id j)

pub data LeaseCall : Type 0 where
  acquires releases asks : Text → LeaseCall

-- What the interface says: a set of workflows under lease. A request is granted exactly if the
-- workflow is not in the set, and it is in the set afterwards; a release takes it out, if it was in.
abbrev pub answer : LeaseCall → (Text → Bool) → Bool
answer (acquires id) s = not (s id)
answer (releases id) s = true
answer (asks id) s = s id

abbrev pub next : LeaseCall → (Text → Bool) → Text → Bool
next (acquires id) s x = text_eq id x || s x
next (releases id) s x = if text_eq id x then false else s x
next (asks id) s x = s x

abbrev pub specified : List LeaseCall → (Text → Bool) → List (Result Bool) × (Text → Bool)
specified [] s = ([], s)
specified (c ∷ cs) s = let (rs, s') = specified cs (next c s) in (ok (answer c s) ∷ rs, s')

-- The store in memory.
abbrev pub perform : LeaseCall → Exec Bool
perform (acquires id) = acquire id
perform (releases id) = release id >> pure true
perform (asks id) = is_held id

abbrev pub performed : List LeaseCall → World → List (Result Bool) × World
performed [] w = ([], w)
performed (c ∷ cs) w = let (r, v) = perform c w in let (rs, u) = performed cs v in (r ∷ rs, u)

abbrev pub Represents : World → (Text → Bool) → Type 0
Represents w s = (x : Text) → contains x w.leases ≡ s x

acquire-Represents :
    (id : Text) (w : World) (s : Text → Bool)
    → Represents w s
    → ((acquire id w).0 ≡ ok (not (s id))) × Represents (acquire id w).1 (next (acquires id) s)
unfolding acquire contains
acquire-Represents id w s h =
    (ground (arith, h id), λ x. ground (arith, h id, h x, text_eq_iff id x))

perform-Represents :
    (c : LeaseCall) (w : World) (s : Text → Bool)
    → Represents w s
    → ((perform c w).0 ≡ ok (answer c s)) × Represents (perform c w).1 (next c s)
unfolding release is_held
perform-Represents (acquires id) w s h = acquire-Represents id w s h
perform-Represents (releases id) w s h =
    (refl, λ x. contains-remove id x w.leases ∙ ap (λ b. if text_eq id x then false else b) (h x))
perform-Represents (asks id) w s h = (ap ok (h id), h)

-- The store in memory keeps the contract: whatever calls are made in whatever order, it answers each
-- as the set of the leased workflows would, and holds the leases of that set at the end.
pub performed-Represents :
    (cs : List LeaseCall) (w : World) (s : Text → Bool)
    → Represents w s
    → ((performed cs w).0 ≡ (specified cs s).0) × Represents (performed cs w).1 (specified cs s).1
performed-Represents [] w s h = (refl, h)
performed-Represents (c ∷ cs) w s h =
    let (same, after) = perform-Represents c w s h in
    let (rest, last) = performed-Represents cs (perform c w).1 (next c s) after in
    (rw same (rw rest refl), last)
