-- ===== src/Contract/Resolve/Shaped.antt =====
-- Which shapes `resolveTypeShape` makes.
use flicker.Prelude.{
  ℕ, zero, suc, ◌≡◌, ◌≢◌, ◌==◌, refl, Bool, true, false, List, [], ◌∷◌, ◌⊎◌, inl, inr, Option, none,
  some, arith, Text, codes, All, is_empty, text_eq, not, ◌&&◌, if◌then◌else◌,
}
use flicker.Contract.Shape.{TypeShape, shape, FieldShapes, field_shape, MaybeShape, absent, present}
use flicker.Contract.Shape as Shape
use flicker.Contract.GoTypes.{
  GoType, named, struct, pointer, slice, map, basic, interface, other, Fields, no_fields, field,
  Named, Universe, tag_get,
}
use flicker.Contract.Resolve.{
  ◌>>=◌, before_comma, json_tag, contains, resolve_impl, resolve_struct_fields, resolve_underlying,
  resolve_named, enough, resolve_type_shape, or_unknown,
}

-- What the kind of a type says of its parts.
abbrev pub OfKind : Text → FieldShapes → MaybeShape → MaybeShape → Type 0
OfKind kind Shape.no_fields absent absent = Unit
OfKind kind Shape.no_fields (present elem') absent =
    (kind ≡ codes "pointer") ⊎ (kind ≡ codes "slice")
OfKind kind Shape.no_fields (present elem') (present key) = kind ≡ codes "map"
OfKind kind Shape.no_fields absent (present key) = ⊥
OfKind kind (field_shape name t tag fs) absent absent = kind ≡ codes "struct"
OfKind kind (field_shape name t tag fs) _ _ = ⊥

abbrev mutual
  pub IsShaped : TypeShape → Type 0
  IsShaped (shape name pkg kind fields elem' key) =
      OfKind kind fields elem' key × AreShaped fields × MaybeShaped elem' × MaybeShaped key

  pub AreShaped : FieldShapes → Type 0
  AreShaped Shape.no_fields = Unit
  AreShaped (field_shape name t tag fs) = IsShaped t × All (λ c. c ≢ b',') tag × AreShaped fs

  pub MaybeShaped : MaybeShape → Type 0
  MaybeShaped absent = Unit
  MaybeShaped (present t) = IsShaped t

-- Of the value of an option.
abbrev Holds {ℓ} : {A : Type ℓ} → (A → Type 0) → Option A → Type 0
Holds P none = Unit
Holds P (some a) = P a

Holds-bind {ℓ κ} :
    {A : Type ℓ} {B : Type κ} (P : A → Type 0) (Q : B → Type 0) (m : Option A) (f : A → Option B)
    → Holds P m
    → ((a : A) → P a → Holds Q (f a))
    → Holds Q (m >>= f)
Holds-bind P Q none f h k = tt
Holds-bind P Q (some a) f h k = k a h

Holds-if {ℓ} :
    {A : Type ℓ} (P : A → Type 0) (b : Bool) (m k : Option A)
    → Holds P m
    → Holds P k
    → Holds P (if b then m else k)
Holds-if P true m k h g = h
Holds-if P false m k h g = g

All-if :
    (P : ℕ → Type 0) (b : Bool) (xs ys : Text)
    → All P xs
    → (b ≡ false → All P ys)
    → All P (if b then xs else ys)
All-if P true xs ys h k = h
All-if P false xs ys h k = k refl

before_comma-All : (s : Text) → All (λ c. c ≢ b',') (before_comma s)
unfolding before_comma
before_comma-All [] = tt
before_comma-All (c ∷ cs) =
    All-if _ (c == b',') [] (c ∷ before_comma cs) tt (λ e. (ground (arith, e), before_comma-All cs))

json_tag-All : (tag : List (Text × Text)) → All (λ c. c ≢ b',') (json_tag tag)
unfolding json_tag
json_tag-All tag =
    let value = tag_get (codes "json") tag in
    All-if _ (not (is_empty value) && not (text_eq value (codes "-"))) (before_comma value) []
      (before_comma-All value) (λ e. tt)

fields-OfKind : (fs : FieldShapes) → OfKind (codes "struct") fs absent absent
fields-OfKind Shape.no_fields = tt
fields-OfKind (field_shape name t tag fs) = refl

module _ (rec : ℕ → Option TypeShape) (shaped : (i : ℕ) → Holds IsShaped (rec i)) where
  mutual
    unfolding resolve_impl

    resolve_impl-Shaped : (t : GoType) → Holds IsShaped (resolve_impl rec t)
    resolve_impl-Shaped (named i) = shaped i
    resolve_impl-Shaped (struct fs) =
        Holds-bind AreShaped IsShaped (resolve_struct_fields rec fs) _ (fields-Shaped fs)
          (λ a h. (fields-OfKind a, h, tt, tt))
    resolve_impl-Shaped (pointer t) =
        Holds-bind IsShaped IsShaped (resolve_impl rec t) _ (resolve_impl-Shaped t)
          (λ a h. (inl refl, tt, h, tt))
    resolve_impl-Shaped (slice t) =
        Holds-bind IsShaped IsShaped (resolve_impl rec t) _ (resolve_impl-Shaped t)
          (λ a h. (inr refl, tt, h, tt))
    resolve_impl-Shaped (map k v) =
        Holds-bind IsShaped IsShaped (resolve_impl rec k) _ (resolve_impl-Shaped k) (λ a h.
          Holds-bind IsShaped IsShaped (resolve_impl rec v) _ (resolve_impl-Shaped v)
            (λ b g. (refl, tt, g, h)))
    resolve_impl-Shaped (basic name) = (tt, tt, tt, tt)
    resolve_impl-Shaped (interface empty string) = (tt, tt, tt, tt)
    resolve_impl-Shaped (other string) = (tt, tt, tt, tt)

    fields-Shaped : (fs : Fields) → Holds AreShaped (resolve_struct_fields rec fs)
    fields-Shaped no_fields = tt
    fields-Shaped (field name true t tag fs) =
        Holds-bind IsShaped AreShaped (resolve_impl rec t) _ (resolve_impl-Shaped t) (λ a h.
          Holds-bind AreShaped AreShaped (resolve_struct_fields rec fs) _ (fields-Shaped fs)
            (λ b g. (h, json_tag-All tag, g)))
    fields-Shaped (field name false t tag fs) = fields-Shaped fs

  resolve_underlying-Shaped : (n : Named) (t : GoType) → Holds IsShaped (resolve_underlying rec n t)
  unfolding resolve_underlying
  resolve_underlying-Shaped n (struct fs) =
      Holds-bind AreShaped IsShaped (resolve_struct_fields rec fs) _ (fields-Shaped fs)
        (λ a h. (fields-OfKind a, h, tt, tt))
  resolve_underlying-Shaped n (pointer t) =
      Holds-bind IsShaped IsShaped (resolve_impl rec t) _ (resolve_impl-Shaped t)
        (λ a h. (inl refl, tt, h, tt))
  resolve_underlying-Shaped n (slice t) =
      Holds-bind IsShaped IsShaped (resolve_impl rec t) _ (resolve_impl-Shaped t)
        (λ a h. (inr refl, tt, h, tt))
  resolve_underlying-Shaped n (map k v) =
      Holds-bind IsShaped IsShaped (resolve_impl rec k) _ (resolve_impl-Shaped k) (λ a h.
        Holds-bind IsShaped IsShaped (resolve_impl rec v) _ (resolve_impl-Shaped v)
          (λ b g. (refl, tt, g, h)))
  resolve_underlying-Shaped n (basic name) = (tt, tt, tt, tt)
  resolve_underlying-Shaped n (interface empty string) = (tt, tt, tt, tt)
  resolve_underlying-Shaped n (other string) = (tt, tt, tt, tt)
  resolve_underlying-Shaped n (named i) = (tt, tt, tt, tt)

resolve_named-Shaped :
    (u : Universe) (fuel : ℕ) (seen : List ℕ) (i : ℕ) → Holds IsShaped (resolve_named u fuel seen i)
unfolding resolve_named
resolve_named-Shaped u zero seen i = tt
resolve_named-Shaped u (suc fuel) seen i =
    Holds-if IsShaped (contains i seen) _ _ (tt, tt, tt, tt)
      (resolve_underlying-Shaped (resolve_named u fuel (i ∷ seen))
        (resolve_named-Shaped u fuel (i ∷ seen)) (u.named_of i) (u.named_of i).underlying)

or_unknown-IsShaped : (o : Option TypeShape) → Holds IsShaped o → IsShaped (or_unknown o)
or_unknown-IsShaped none h = (tt, tt, tt, tt)
or_unknown-IsShaped (some s) h = h

-- Every shape that `resolveTypeShape` makes, of recursive types too, is well formed at every depth:
-- only a struct has fields, only a pointer, a slice or a map has an element, only a map has a key, which
-- then has an element too, and no JSON name of a field holds a comma.
pub resolve_type_shape-IsShaped :
    (u : Universe) (t : Option GoType) → IsShaped (resolve_type_shape u t)
unfolding resolve_type_shape
resolve_type_shape-IsShaped u none = (tt, tt, tt, tt)
resolve_type_shape-IsShaped u (some t) =
    or_unknown-IsShaped _
      (resolve_impl-Shaped (resolve_named u (enough u) []) (resolve_named-Shaped u (enough u) []) t)
