-- ===== src/Contract/Resolve/Fuel.antt =====
-- More rounds give the same shape: the bound on the rounds is no part of the result.
use flicker.Prelude.{
  ℕ, zero, suc, ◌+◌, ◌≤◌, ◌≡◌, refl, true, false, List, [], ◌∷◌, Option, none, some, Bool-cases,
  inl, inr, arith,
}
use flicker.Contract.Shape.{TypeShape}
use flicker.Contract.GoTypes.{
  GoType, named, struct, pointer, slice, map, basic, interface, other, Fields, no_fields, field,
  Named, Universe, Within, IsClosed,
}
use flicker.Contract.Resolve.{
  ◌>>=◌, contains, resolve_impl, resolve_struct_fields, resolve_underlying, resolve_named, enough,
  resolve_type_shape,
}
use flicker.Contract.Resolve.Termination.{resolve_type_shape_defined}

-- Where the first has a result, the second has the same.
abbrev Extends {ℓ} : {A : Type ℓ} → Option A → Option A → Type ℓ
Extends {A = A} o o' = (a : A) → o ≡ some a → o' ≡ some a

Extends-bind {ℓ κ} :
    {A : Type ℓ} {B : Type κ} (m m' : Option A) (f g : A → Option B)
    → Extends m m'
    → ((a : A) → Extends (f a) (g a))
    → Extends (m >>= f) (m' >>= g)
Extends-bind none m' f g h k = λ b e. absurd (ground (arith, e))
Extends-bind (some a) none f g h k = λ b e. absurd (ground (arith, h a refl))
Extends-bind (some a) (some a') f g h k = λ b e. ground (arith, h a refl, k a b e)

module _ (rec rec' : ℕ → Option TypeShape) (more : (i : ℕ) → Extends (rec i) (rec' i)) where
  mutual
    unfolding resolve_impl

    resolve_impl-Extends : (t : GoType) → Extends (resolve_impl rec t) (resolve_impl rec' t)
    resolve_impl-Extends (named i) = more i
    resolve_impl-Extends (struct fs) =
        Extends-bind (resolve_struct_fields rec fs) (resolve_struct_fields rec' fs) _ _
          (resolve_struct_fields-Extends fs) (λ _ b e. e)
    resolve_impl-Extends (pointer t) =
        Extends-bind (resolve_impl rec t) (resolve_impl rec' t) _ _ (resolve_impl-Extends t)
          (λ _ b e. e)
    resolve_impl-Extends (slice t) =
        Extends-bind (resolve_impl rec t) (resolve_impl rec' t) _ _ (resolve_impl-Extends t)
          (λ _ b e. e)
    resolve_impl-Extends (map k v) =
        Extends-bind (resolve_impl rec k) (resolve_impl rec' k) _ _ (resolve_impl-Extends k) (λ _.
          Extends-bind (resolve_impl rec v) (resolve_impl rec' v) _ _ (resolve_impl-Extends v)
            (λ _ b e. e))
    resolve_impl-Extends (basic name) = λ b e. e
    resolve_impl-Extends (interface empty string) = λ b e. e
    resolve_impl-Extends (other string) = λ b e. e

    resolve_struct_fields-Extends :
        (fs : Fields) → Extends (resolve_struct_fields rec fs) (resolve_struct_fields rec' fs)
    resolve_struct_fields-Extends no_fields = λ b e. e
    resolve_struct_fields-Extends (field name true t tag fs) =
        Extends-bind (resolve_impl rec t) (resolve_impl rec' t) _ _ (resolve_impl-Extends t) (λ _.
          Extends-bind (resolve_struct_fields rec fs) (resolve_struct_fields rec' fs) _ _
            (resolve_struct_fields-Extends fs) (λ _ b e. e))
    resolve_struct_fields-Extends (field name false t tag fs) = resolve_struct_fields-Extends fs

  resolve_underlying-Extends :
      (n : Named) (t : GoType) → Extends (resolve_underlying rec n t) (resolve_underlying rec' n t)
  unfolding resolve_underlying
  resolve_underlying-Extends n (struct fs) =
      Extends-bind (resolve_struct_fields rec fs) (resolve_struct_fields rec' fs) _ _
        (resolve_struct_fields-Extends fs) (λ _ b e. e)
  resolve_underlying-Extends n (pointer t) =
      Extends-bind (resolve_impl rec t) (resolve_impl rec' t) _ _ (resolve_impl-Extends t)
        (λ _ b e. e)
  resolve_underlying-Extends n (slice t) =
      Extends-bind (resolve_impl rec t) (resolve_impl rec' t) _ _ (resolve_impl-Extends t)
        (λ _ b e. e)
  resolve_underlying-Extends n (map k v) =
      Extends-bind (resolve_impl rec k) (resolve_impl rec' k) _ _ (resolve_impl-Extends k) (λ _.
        Extends-bind (resolve_impl rec v) (resolve_impl rec' v) _ _ (resolve_impl-Extends v)
          (λ _ b e. e))
  resolve_underlying-Extends n (named i) = λ b e. e
  resolve_underlying-Extends n (basic name) = λ b e. e
  resolve_underlying-Extends n (interface empty string) = λ b e. e
  resolve_underlying-Extends n (other string) = λ b e. e

resolve_named-Extends :
    (u : Universe) (fuel fuel' : ℕ) (seen : List ℕ) (i : ℕ)
    → fuel ≤ fuel'
    → Extends (resolve_named u fuel seen i) (resolve_named u fuel' seen i)
unfolding resolve_named
resolve_named-Extends u zero fuel' seen i h = λ b e. absurd (ground (arith, e))
resolve_named-Extends u (suc fuel) zero seen i h = absurd (omega arith)
resolve_named-Extends u (suc fuel) (suc fuel') seen i h = elim (Bool-cases (contains i seen)) [
  | inl old ↦ rw old (λ b e. e)
  | inr new ↦ rw new (
      resolve_underlying-Extends (resolve_named u fuel (i ∷ seen))
        (resolve_named u fuel' (i ∷ seen))
        (λ j. resolve_named-Extends u fuel fuel' (i ∷ seen) j (omega arith)) (u.named_of i)
        (u.named_of i).underlying)
]

-- Whatever number of rounds is allowed beyond the bound, the recursion gives the shape that
-- `resolveTypeShape` returns: it ends on every type whose named types all stand in the table.
pub resolve_type_shape_lem :
    (u : Universe) (m : ℕ) (t : GoType)
    → IsClosed u
    → Within u.count t
    → resolve_impl (resolve_named u (m + enough u) []) t ≡ some (resolve_type_shape u (some t))
resolve_type_shape_lem u m t c h =
    resolve_impl-Extends (resolve_named u (enough u) []) (resolve_named u (m + enough u) [])
      (λ i. resolve_named-Extends u (enough u) (m + enough u) [] i (omega arith)) t
      (resolve_type_shape u (some t)) (resolve_type_shape_defined u t c h)
