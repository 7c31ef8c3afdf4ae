-- ===== src/Fileops/Wrangler/Labels.antt =====
-- Which files of a batch have a type and a checksum.
use flicker.Prelude.{
  ◌≡◌, refl, ap, ◌∙◌, codes, Bool, true, false, ◌||◌, List, [], ◌∷◌, Option, none, some, Text,
  text_eq, text_eq_iff, not, find?, find?-filter, arith,
}
use flicker.Errors.{ok}
use flicker.World.{World, Exec}
use flicker.Fileops.{
  FileEntry, Map, Host, put, label_each, detect_types, compute_checksums, hash_file, or_text,
}

abbrev pub lookup : {A : Type 0} → Text → Map A → Option (Text × A)
lookup k m = find? (λ e. text_eq e.0 k) m

abbrev is_present : {A : Type 0} → Option A → Bool
is_present none = false
is_present (some a) = true

abbrev pub has_key : {A : Type 0} → Text → Map A → Bool
has_key k m = is_present (lookup k m)

abbrev pub is_named : Text → List FileEntry → Bool
is_named k [] = false
is_named k (e ∷ es) = text_eq e.name k || is_named k es

differs : (a b c : Text) → text_eq b c ≡ false → text_eq a c ≡ true → not (text_eq a b) ≡ true
differs a b c h k = grind (arith, text_eq_iff a c, text_eq_iff a b, text_eq_iff b c)

put_at :
    {A : Type 0} (b : Bool) (k a : Text) (v : A) (m : Map A)
    → text_eq a k ≡ b
    → has_key k (put a v m) ≡ (b || has_key k m)
unfolding put find?
put_at true k a v m h = ground (arith, h)
put_at false k a v m h = ground (
  arith,
  h,
  find?-filter (λ e. text_eq e.0 k) (λ e. not (text_eq e.0 a)) (λ e p. differs e.0 a k h p) m,
)

has_key-put :
    {A : Type 0} (k a : Text) (v : A) (m : Map A)
    → has_key k (put a v m) ≡ (text_eq a k || has_key k m)
unfolding put find?
has_key-put k a v m = put_at (text_eq a k) k a v m refl

or_swap : (a b c : Bool) → (a || (b || c)) ≡ ((b || a) || c)
or_swap true true c = refl
or_swap true false c = refl
or_swap false true c = refl
or_swap false false c = refl

label_each-has_key :
    (host : Host) (command : Text → Exec Text) (missing : Text) (f : Text → Text)
    → (k : Text) (files : List FileEntry) (m : Map Text) (w : World)
    → has_key k (label_each host command missing f files m w).0 ≡ (is_named k files || has_key k m)
unfolding label_each
label_each-has_key host command missing f k [] m w = refl
label_each-has_key host command missing f k (e ∷ es) m w =
    let m' = put e.name (or_text host missing f (command e.path w).0) m in
    label_each-has_key host command missing f k es m' (command e.path w).1
    ∙ ap (λ b. is_named k es || b)
        (has_key-put k e.name (or_text host missing f (command e.path w).0) m)
    ∙ or_swap (is_named k es) (text_eq e.name k) (has_key k m)

or_false : (b : Bool) → (b || false) ≡ b
or_false true = refl
or_false false = refl

covered :
    (host : Host) (command : Text → Exec Text) (missing : Text) (f : Text → Text)
    → (files : List FileEntry) (w : World) (k : Text)
    → has_key k (label_each host command missing f files [] w).0 ≡ is_named k files
unfolding find?
covered host command missing f files w k =
    label_each-has_key host command missing f k files [] w ∙ or_false (is_named k files)

-- Both steps succeed whatever the commands do, and their map has an entry for a name exactly if a
-- file of the batch has that name.
labels_cover :
    (host : Host) (files : List FileEntry) (w : World) (k : Text)
    → ((types : Map Text) × (w' : World) × (detect_types host files w ≡ (ok types, w'))
        × (has_key k types ≡ is_named k files))
      × ((sums : Map Text) × (w' : World) × (compute_checksums host files w ≡ (ok sums, w'))
          × (has_key k sums ≡ is_named k files))
unfolding detect_types compute_checksums
labels_cover host files w k =
    let types = label_each host host.file_type (codes "unknown") host.trim_space files [] w in
    let sums = label_each host (hash_file host) (codes "error") (λ s. s) files [] w in
    (
      (
        types.0,
        types.1,
        refl,
        covered host host.file_type (codes "unknown") host.trim_space files w k,
      ),
      (sums.0, sums.1, refl, covered host (hash_file host) (codes "error") (λ s. s) files w k),
    )
