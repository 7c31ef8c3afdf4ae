-- ===== src/Fileops.antt =====
-- examples/fileops: Fileops/Config and Fileops/Bridge for its configuration and its event pipe, and here
-- the workflow of workflow.go with what it does to files. The operating system, the commands and the
-- libraries that it calls are the record `Host`, encoding/json is the record `Formats`; `Log` has no
-- effect. A map is the list of its entries.
pub mod Config
pub mod Bridge
pub mod Container
pub mod Wrangler
use flicker.Prelude.{
  ℕ, suc, ◌+◌, ◌-◌, ◌*◌, ltb, Bool, true, false, List, [], ◌∷◌, ◌++◌, Option, none, some, Text,
  codes, text_eq, length, take, filter, not, if◌then◌else◌,
}
use flicker.Time.{Time, pad2, decimal}
use flicker.Errors.{Error, wrapped, Result, ok, err}
use flicker.World.{World, Exec, pure, raise, wrapping, ◌>>=◌, ◌>>◌}
use flicker.Steps.{Outcome, returned, panicked}
use flicker.Waits.{returning}

pub record CycleRequest : Type 0 where
  pub work_dir : Text
  pub archive_dir : Text
  pub cycle_num : ℕ

pub record FileEntry : Type 0 where
  pub name : Text
  pub size : ℕ
  pub path : Text

abbrev pub Map : Type 0 → Type 0
Map A = List (Text × A)

pub record CycleReport : Type 0 where
  pub cycle_id : Text
  pub cycle_num : ℕ
  pub started_at : Time
  pub files_processed : ℕ
  pub files_archived : ℕ
  pub checksums : Map Text
  pub types : Map Text
  pub sizes : Map ℕ
  pub manifest_path : Text
  pub cleaned_up : Bool

-- The map that `write-manifest` marshals.
pub record Manifest : Type 0 where
  pub cycle_id : Text
  pub timestamp : Time
  pub files : List FileEntry
  pub checksums : Map Text
  pub types : Map Text
  pub sizes : Map ℕ

-- `os.DirEntry`; `info` is `none` where `Info` fails.
pub record DirEntry : Type 0 where
  pub name : Text
  pub is_dir : Bool
  pub info : Option ℕ

pub record Host : Type 0 where
  -- dd, `file -b`, `du -b` and mv.
  pub dd : (path : Text) → (count : ℕ) → Exec (Unit {0})
  pub file_type : Text → Exec Text
  pub disk_usage : Text → Exec Text
  pub move : Text → Text → Exec (Unit {0})
  pub read_dir : Text → Exec (List DirEntry)
  pub read_file : Text → Exec Text
  pub write_file : Text → Text → Exec (Unit {0})
  pub mkdir_all : Text → Exec (Unit {0})
  pub remove_all : Text → Exec (Unit {0})
  pub unix_nano : Exec ℕ
  pub sha256_hex : Text → Text
  -- filepath.Join, strings.TrimSpace, strings.Fields, and Sscanf of `%d` with 0 on failure.
  pub join : Text → Text → Text
  pub trim_space : Text → Text
  pub fields : Text → List Text
  pub scan_int : Text → ℕ
  pub marshal_manifest : Manifest → Result Text
  -- The stack that a panic prints.
  pub stack : Text

unfoldable pub put : {A : Type 0} → Text → A → Map A → Map A
unfolding filter
put k a m = (k, a) ∷ filter (λ e. not (text_eq e.0 k)) m

-- `%03d` of a number below 100.
abbrev pad3 : ℕ → Text
pad3 n = b'0' ∷ pad2 n

-- The step functions.
module _ (host : Host) where
  abbrev seed_name : Text → ℕ → Text
  seed_name cycle_id i =
      codes "data-" ++ (take 8 cycle_id ++ (codes "-" ++ (pad3 i ++ codes ".bin")))

  unfoldable pub seed_each : Text → Text → List ℕ → ℕ → Exec ℕ
  seed_each dir cycle_id [] count = pure count
  seed_each dir cycle_id (i ∷ is) count =
      wrapping (codes "seed file " ++ seed_name cycle_id i)
        (host.dd (host.join dir (seed_name cycle_id i)) ((i + 1) * 10))
      >> seed_each dir cycle_id is (count + 1)

  -- `cycleID[:8]` panics on a shorter identifier.
  unfoldable pub seed : Text → Text → World → Outcome ℕ × World
  unfolding seed_each decimal
  seed dir cycle_id w =
      if ltb (length cycle_id) 8
      then (
        panicked
            (codes "runtime error: slice bounds out of range [:8] with length "
              ++ decimal (length cycle_id))
            host.stack,
        w,
      )
      else returning (seed_each dir cycle_id (0 ∷ 1 ∷ 2 ∷ 3 ∷ 4 ∷ []) 0) w

  unfoldable pub file_entries : Text → List DirEntry → List FileEntry
  file_entries dir [] = []
  file_entries dir (e ∷ es) =
      let rest = file_entries dir es in
      if e.is_dir then rest else elim e.info [
        | none ↦ rest
        | some size ↦ record { name = e.name; size = size; path = host.join dir e.name } ∷ rest
      ]

  unfoldable pub scan : Text → Exec (List FileEntry)
  unfolding file_entries
  scan dir = do entries ← host.read_dir dir; pure (file_entries dir entries)

  -- `hashFile`.
  unfoldable pub hash_file : Text → Exec Text
  hash_file path = do content ← host.read_file path; pure (host.sha256_hex content)

  abbrev pub or_text : Text → (Text → Text) → Result Text → Text
  or_text missing f (ok s) = f s
  or_text missing f (err e) = missing

  -- `result` is `host.file_type` or `hash_file`; an error gives the label `missing`.
  unfoldable pub label_each :
      (Text → Exec Text)
      → Text
      → (Text → Text)
      → List FileEntry
      → Map Text
      → World
      → Map Text × World
  unfolding put
  label_each command missing f [] m w = (m, w)
  label_each command missing f (e ∷ es) m w =
      let (r, w') = command e.path w in
      label_each command missing f es (put e.name (or_text missing f r) m) w'

  abbrev labelled : Map Text × World → Result (Map Text) × World
  labelled (m, w) = (ok m, w)

  unfoldable pub detect_types : List FileEntry → Exec (Map Text)
  unfolding label_each
  detect_types files w =
      labelled (label_each host.file_type (codes "unknown") host.trim_space files [] w)

  unfoldable pub compute_checksums : List FileEntry → Exec (Map Text)
  unfolding label_each hash_file
  compute_checksums files w = labelled (label_each hash_file (codes "error") (λ s. s) files [] w)

  abbrev put_size : Text → List Text → Map ℕ → Map ℕ
  put_size name [] m = m
  put_size name (part ∷ parts) m = put name (host.scan_int part) m

  abbrev put_usage : Text → Result Text → Map ℕ → Map ℕ
  put_usage name (err e) m = m
  put_usage name (ok out) m = put_size name (host.fields out) m

  unfoldable pub measure_each : List FileEntry → Map ℕ → Exec (Map ℕ)
  unfolding put
  measure_each [] m w = (ok m, w)
  measure_each (e ∷ es) m w =
      let (r, w') = host.disk_usage e.path w in measure_each es (put_usage e.name r m) w'

  unfoldable pub write_manifest : Text → Manifest → Exec Text
  write_manifest dir manifest w = elim (host.marshal_manifest manifest) [
    | err e ↦ (err e, w)
    | ok data' ↦
        let p = host.join dir (codes "manifest.json") in (do host.write_file p data'; pure p) w
  ]

  abbrev counted : Result (Unit {0}) → ℕ → ℕ
  counted (ok tt) n = n + 1
  counted (err e) n = n

  unfoldable pub move_each : Text → List FileEntry → ℕ → World → ℕ × World
  move_each dir [] count w = (count, w)
  move_each dir (e ∷ es) count w =
      let (r, w') = host.move e.path (host.join dir e.name) w in
      move_each dir es (counted r count) w'

  unfoldable pub archive : Text → Text → List FileEntry → Exec ℕ
  unfolding move_each
  archive work_dir arch_dir files = do
    host.mkdir_all arch_dir
    λ w.
        let (count, w₁) = move_each arch_dir files 0 w in
        let (r, w₂) =
          host.move (host.join work_dir (codes "manifest.json"))
            (host.join arch_dir (codes "manifest.json")) w₁ in
        (ok count, w₂)

  -- The errors of `RemoveAll` are dropped.
  unfoldable pub remove_each : Text → List DirEntry → World → World
  remove_each dir [] w = w
  remove_each dir (e ∷ es) w = remove_each dir es (host.remove_all (host.join dir e.name) w).1

  -- All but the last three.
  abbrev pub old_archives : List DirEntry → List DirEntry
  old_archives entries = take (length entries - 3) entries

  abbrev pruned : Text → Result (List DirEntry) × World → Result Bool × World
  pruned dir (err e, w) = (ok false, w)
  pruned dir (ok entries, w) = (ok true, remove_each dir (old_archives entries) w)

  unfoldable pub prune : Text → Exec Bool
  unfolding remove_each
  prune dir w = pruned dir (host.read_dir dir w)
