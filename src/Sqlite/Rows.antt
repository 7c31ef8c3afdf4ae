-- ===== src/Sqlite/Rows.antt =====
-- How the clauses WHERE, ORDER BY and LIMIT of sqlite/sqlite.go, and the loop over the rows, act on a
-- list of rows.
use Prim.Native.Nat.{min}
use flicker.Prelude.{
  ℕ, zero, suc, ◌≡◌, refl, Bool, true, List, [], ◌∷◌, arith, Text, filter, count_where, length,
  take, All,
}
use flicker.Sqlite.Workflows.{insert_by, order_by}

module _ {ℓ} {A : Type ℓ} where
  length-insert_by :
      (key : A → Text) (x : A) (rows : List A) → length (insert_by key x rows) ≡ suc (length rows)
  unfolding insert_by
  length-insert_by key x [] = refl
  length-insert_by key x (r ∷ rs) = ground (arith, length-insert_by key x rs)

  pub length-order_by : (key : A → Text) (rows : List A) → length (order_by key rows) ≡ length rows
  unfolding order_by
  length-order_by key [] = refl
  length-order_by key (r ∷ rs) =
      rw (length-insert_by key r (order_by key rs), length-order_by key rs)

  pub length-filter : (p : A → Bool) (rows : List A) → length (filter p rows) ≡ count_where p rows
  unfolding filter count_where
  length-filter p [] = refl
  length-filter p (r ∷ rs) = ground (arith, length-filter p rs)

  pub length-take : (n : ℕ) (rows : List A) → length (take n rows) ≡ min n (length rows)
  length-take zero rows = omega arith
  length-take (suc n) [] = omega arith
  length-take (suc n) (r ∷ rs) = omega (arith, length-take n rs)

  pub All-filter : (p : A → Bool) (rows : List A) → All (λ r. p r ≡ true) (filter p rows)
  unfolding filter
  All-filter p [] = tt
  All-filter p (r ∷ rs) = ground (arith, All-filter p rs)

module _ {ℓ} {A : Type ℓ} (P : A → Type 0) where
  pub All-take : (n : ℕ) (rows : List A) → All P rows → All P (take n rows)
  All-take zero rows h = tt
  All-take (suc n) [] h = tt
  All-take (suc n) (r ∷ rs) h = (h.0, All-take n rs h.1)

  All-insert_by :
      (key : A → Text) (x : A) (rows : List A) → P x → All P rows → All P (insert_by key x rows)
  unfolding insert_by
  All-insert_by key x [] p h = (p, tt)
  All-insert_by key x (r ∷ rs) p h = ground (arith, All-insert_by key x rs p h.1)

  pub All-order_by : (key : A → Text) (rows : List A) → All P rows → All P (order_by key rows)
  unfolding order_by
  All-order_by key [] h = tt
  All-order_by key (r ∷ rs) h = All-insert_by key r (order_by key rs) h.0 (All-order_by key rs h.1)

  -- What holds of all rows holds of those that a test keeps, with the test.
  pub All-filter_and :
      (p : A → Bool) (rows : List A) → All P rows → All (λ r. P r × (p r ≡ true)) (filter p rows)
  unfolding filter
  All-filter_and p [] h = tt
  All-filter_and p (r ∷ rs) h = ground (arith, All-filter_and p rs h.1)

  pub All-map : (Q : A → Type 0) → ((x : A) → P x → Q x) → (rows : List A) → All P rows → All Q rows
  All-map Q f [] h = tt
  All-map Q f (r ∷ rs) h = (f r h.0, All-map Q f rs h.1)
