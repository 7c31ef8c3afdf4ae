-- ===== src/Contract/Resolve/Termination.antt =====
-- `resolveTypeShape` ends on every type, recursive ones included: no named type is resolved within
-- itself, so that one round for each named type, and one more, is enough.
use flicker.Prelude.{
  ℕ, zero, suc, ◌+◌, ◌≤◌, ◌<◌, ◌≡◌, refl, Bool, true, false, List, [], ◌∷◌, Option, none, some,
  Bool-cases, inl, inr, arith, if◌then◌else◌, ◌==◌, ==_iff,
}
use flicker.Contract.Shape.{TypeShape}
use flicker.Contract.GoTypes.{
  GoType, named, struct, pointer, slice, map, basic, interface, other, Fields, no_fields, field,
  Named, Universe, Within, WithinFields, IsClosed,
}
use flicker.Contract.Resolve.{
  ◌>>=◌, contains, resolve_impl, resolve_struct_fields, resolve_underlying, resolve_named, enough,
  resolve_type_shape,
}

abbrev is_some {ℓ} : {A : Type ℓ} → Option A → Bool
is_some none = false
is_some (some a) = true

defined-bind {ℓ κ} :
    {A : Type ℓ} {B : Type κ} (m : Option A) (f : A → Option B)
    → is_some m ≡ true
    → ((a : A) → is_some (f a) ≡ true)
    → is_some (m >>= f) ≡ true
defined-bind none f h k = cc
defined-bind (some a) f h k = k a

-- The numbers below `k` that are not in `seen`.
fresh : ℕ → List ℕ → ℕ
fresh zero seen = 0
fresh (suc k) seen = (if contains k seen then 0 else 1) + fresh k seen

fresh-le : (k i : ℕ) (seen : List ℕ) → fresh k (i ∷ seen) ≤ fresh k seen
unfolding fresh contains
fresh-le zero i seen = omega arith
fresh-le (suc k) i seen = ground (arith, fresh-le k i seen)

fresh-lt :
    (k i : ℕ) (seen : List ℕ) → i < k → contains i seen ≡ false → fresh k (i ∷ seen) < fresh k seen
unfolding fresh contains
fresh-lt zero i seen h new = absurd (omega arith)
fresh-lt (suc k) i seen h new = elim (Bool-cases (i == k)) [
  | inl last ↦ ground (arith, fresh-le k i seen, ==_iff i k)
  | inr below ↦ ground (arith, fresh-lt k i seen, ==_iff i k)
]

fresh-nil : (k : ℕ) → fresh k [] ≡ k
unfolding fresh contains
fresh-nil zero = refl
fresh-nil (suc k) = omega (arith, fresh-nil k)

module _ (rec : ℕ → Option TypeShape) (k : ℕ)
    (total : (i : ℕ) → i < k → is_some (rec i) ≡ true) where
  mutual
    unfolding resolve_impl

    impl_defined : (t : GoType) → Within k t → is_some (resolve_impl rec t) ≡ true
    impl_defined (named i) h = total i h
    impl_defined (struct fs) h =
        defined-bind (resolve_struct_fields rec fs) _ (fields_defined fs h) (λ _. refl)
    impl_defined (pointer t) h = defined-bind (resolve_impl rec t) _ (impl_defined t h) (λ _. refl)
    impl_defined (slice t) h = defined-bind (resolve_impl rec t) _ (impl_defined t h) (λ _. refl)
    impl_defined (map a b) h =
        defined-bind (resolve_impl rec a) _ (impl_defined a h.0)
          (λ _. defined-bind (resolve_impl rec b) _ (impl_defined b h.1) (λ _. refl))
    impl_defined (basic name) h = refl
    impl_defined (interface empty string) h = refl
    impl_defined (other string) h = refl

    fields_defined :
        (fs : Fields) → WithinFields k fs → is_some (resolve_struct_fields rec fs) ≡ true
    fields_defined no_fields h = refl
    fields_defined (field name true t tag fs) h =
        defined-bind (resolve_impl rec t) _ (impl_defined t h.0)
          (λ _. defined-bind (resolve_struct_fields rec fs) _ (fields_defined fs h.1) (λ _. refl))
    fields_defined (field name false t tag fs) h = fields_defined fs h.1

  underlying_defined :
      (n : Named) (t : GoType) → Within k t → is_some (resolve_underlying rec n t) ≡ true
  unfolding resolve_underlying
  underlying_defined n (struct fs) h =
      defined-bind (resolve_struct_fields rec fs) _ (fields_defined fs h) (λ _. refl)
  underlying_defined n (pointer t) h =
      defined-bind (resolve_impl rec t) _ (impl_defined t h) (λ _. refl)
  underlying_defined n (slice t) h =
      defined-bind (resolve_impl rec t) _ (impl_defined t h) (λ _. refl)
  underlying_defined n (map a b) h =
      defined-bind (resolve_impl rec a) _ (impl_defined a h.0)
        (λ _. defined-bind (resolve_impl rec b) _ (impl_defined b h.1) (λ _. refl))
  underlying_defined n (named i) h = refl
  underlying_defined n (basic name) h = refl
  underlying_defined n (interface empty string) h = refl
  underlying_defined n (other string) h = refl

named_defined :
    (u : Universe) (c : IsClosed u) (fuel : ℕ) (seen : List ℕ) (i : ℕ)
    → i < u.count
    → fresh u.count seen < fuel
    → is_some (resolve_named u fuel seen i) ≡ true
unfolding resolve_named
named_defined u c zero seen i h few = absurd (omega arith)
named_defined u c (suc fuel) seen i h few = elim (Bool-cases (contains i seen)) [
  | inl old ↦ rw old refl
  | inr new ↦
      let smaller = fresh-lt u.count i seen h new in
      rw new (
        underlying_defined (resolve_named u fuel (i ∷ seen)) u.count
          (λ j k. named_defined u c fuel (i ∷ seen) j k (omega arith)) (u.named_of i)
          (u.named_of i).underlying (c.closed i h))
]

some_of_defined {ℓ} : {A : Type ℓ} (o : Option A) → is_some o ≡ true → (a : A) × (o ≡ some a)
some_of_defined none h = absurd (ground (arith, h))
some_of_defined (some a) h = (a, refl)

-- The shape of a type is what the recursion gives, never for want of fuel, where every named type
-- stands in the table of the named types.
pub resolve_type_shape_defined :
    (u : Universe) (t : GoType)
    → IsClosed u
    → Within u.count t
    → resolve_impl (resolve_named u (enough u) []) t ≡ some (resolve_type_shape u (some t))
unfolding resolve_type_shape
resolve_type_shape_defined u t c h =
    let (s, e) = some_of_defined (resolve_impl (resolve_named u (enough u) []) t) (
      impl_defined (resolve_named u (enough u) []) u.count
        (λ i k. named_defined u c (enough u) [] i k (omega (arith, fresh-nil u.count))) t h) in
    ground (arith, e)
