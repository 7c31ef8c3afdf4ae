-- ===== src/Fileops/Config.antt =====
-- The configuration of examples/fileops/container.go. The environment and `time.ParseDuration` are
-- arguments; a duration is a number of nanoseconds.
use flicker.Prelude.{
  ℕ, ◌*◌, List, [], ◌∷◌, Option, none, some, Text, codes, is_empty, text_eq, if◌then◌else◌, ◌==◌,
}
use flicker.Time.{second}

pub data Level : Type 0 where
  debug info warn error : Level

pub record Config : Type 0 where
  pub work_dir : Text
  pub archive_dir : Text
  pub pipe_path : Text
  pub cycle_interval : ℕ
  pub server_addr : Text
  pub otlp_endpoint : Text
  pub log_level : Level

unfoldable pub get_env_or_default : (Text → Text) → Text → Text → Text
get_env_or_default env key default_val = if is_empty (env key) then default_val else env key

unfoldable pub parse_duration_or_default : (Text → Option ℕ) → Text → ℕ → ℕ
parse_duration_or_default parse_duration val default_val = elim (parse_duration val) [
  | none ↦ default_val
  | some d ↦ d
]

unfoldable pub parse_log_level : Text → Level
unfolding text_eq
parse_log_level level =
    if text_eq level (codes "debug")
    then debug
    else if text_eq level (codes "warn")
    then warn
    else if text_eq level (codes "error")
    then error
    else info

-- What is left of a text behind a prefix, if it starts with it.
unfoldable pub strip_prefix : Text → Text → Option Text
strip_prefix [] s = some s
strip_prefix (p ∷ ps) [] = none
strip_prefix (p ∷ ps) (c ∷ cs) = if p == c then strip_prefix ps cs else none

abbrev pub trim_prefixes : List Text → Text → Text
trim_prefixes [] endpoint = endpoint
trim_prefixes (prefix ∷ prefixes) endpoint = elim (strip_prefix prefix endpoint) [
  | none ↦ trim_prefixes prefixes endpoint
  | some [] ↦ trim_prefixes prefixes endpoint
  | some (c ∷ cs) ↦ c ∷ cs
]

unfoldable pub trim_scheme : Text → Text
unfolding strip_prefix
trim_scheme endpoint = trim_prefixes (codes "http://" ∷ codes "https://" ∷ []) endpoint

unfoldable pub load_config : (Text → Text) → (Text → Option ℕ) → Config
unfolding get_env_or_default parse_duration_or_default parse_log_level
load_config env parse_duration = record {
  work_dir = get_env_or_default env (codes "WORK_DIR") (codes "/data/work");
  archive_dir = get_env_or_default env (codes "ARCHIVE_DIR") (codes "/data/archive");
  pipe_path = get_env_or_default env (codes "PIPE_PATH") (codes "/data/events.pipe");
  cycle_interval =
      parse_duration_or_default parse_duration
        (get_env_or_default env (codes "CYCLE_INTERVAL") (codes "30s")) (30 * second);
  server_addr = get_env_or_default env (codes "SERVER_ADDR") (codes ":9001");
  otlp_endpoint = env (codes "OTEL_EXPORTER_OTLP_ENDPOINT");
  log_level = parse_log_level (get_env_or_default env (codes "LOG_LEVEL") (codes "info"));
}
