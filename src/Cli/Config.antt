-- ===== src/Cli/Config.antt =====
-- cmd/datafog-shim/main.go: the runtime configuration, from the flags and the environment. Flags arrive
-- parsed; a variable of the environment that is not set is the empty text.
use datafog.Prelude.{
  String, Bool, true, false, not, ◌||◌, Option, none, some, List, [], ◌∷◌, ◌==◌, if◌then◌else◌,
}
use datafog.Strings.{Unicode, trim_space, to_lower}
use datafog.Shim.Gate.{EnforcementMode}

pub record ShimRuntimeConfig : Type 0 where
  pub policy_url : String
  pub api_token : String
  pub mode : String
  pub event_sink : String
  pub shim_dir : String
  pub sensitive : Bool
  pub enforce_policy_errors : Bool
  pub enforce_policy_errors_set : Bool

-- `os.Getenv` of what the program reads; `default_dir` is what `defaultShimDir` makes of the home
-- directory
pub record Environment : Type 0 where
  pub policy_url : String
  pub api_token : String
  pub mode : String
  pub event_sink : String
  pub shim_dir : String
  pub enforce_policy_errors : String
  pub default_dir : String

pub data ConfigError : Type 0 where
  invalid_mode invalid_boolean : String → ConfigError

pub data Configured (A : Type 0) : Type 0 where
  ok : A → Configured A
  err : ConfigError → Configured A

unfoldable pub coalesce : List String → String
coalesce [] = ""
coalesce (value ∷ values) =
    let rest = coalesce values in if not (trim_space value == "") then trim_space value else rest

-- strconv.ParseBool
unfoldable pub parse_bool : String → Option Bool
parse_bool s =
    if s == "1" || s == "t" || s == "T" || s == "TRUE" || s == "true" || s == "True"
    then some true
    else if s == "0" || s == "f" || s == "F" || s == "FALSE" || s == "false" || s == "False"
    then some false
    else none

unfoldable pub parse_bool_value : String → Configured Bool
parse_bool_value raw = elim (parse_bool (trim_space raw)) [
  | none ↦ err (invalid_boolean raw)
  | some b ↦ ok b
]

abbrev pub given : Configured Bool → Configured (Bool × Bool)
given (err e) = err e
given (ok b) = ok (b, true)

-- the value, and whether there was one
unfoldable pub parse_bool_option : String → Configured (Bool × Bool)
parse_bool_option raw =
    if trim_space raw == "" then ok (false, false) else given (parse_bool_value raw)

-- `defaultShimDir`
unfoldable pub default_shim_dir : Environment → String
default_shim_dir env =
    if not (trim_space env.shim_dir == "") then trim_space env.shim_dir else env.default_dir

abbrev pub mode_name : EnforcementMode → String
mode_name EnforcementMode.unset = ""
mode_name EnforcementMode.enforced = "enforced"
mode_name EnforcementMode.observe = "observe"
mode_name (EnforcementMode.other s) = s

module _ ⦃u : Unicode⦄ where
  unfoldable pub parse_mode : String → Configured EnforcementMode
  parse_mode raw =
      let name = to_lower (trim_space raw) in
      if name == "" || name == "enforced"
      then ok EnforcementMode.enforced
      else if name == "observe"
      then ok EnforcementMode.observe
      else err (invalid_mode raw)

  -- whether policy errors are fatal, and whether that was said
  unfoldable pub resolve_enforce : ShimRuntimeConfig → Environment → Configured (Bool × Bool)
  resolve_enforce input env =
      if input.enforce_policy_errors_set
      then ok (input.enforce_policy_errors, true)
      else if trim_space env.enforce_policy_errors == ""
      then ok (false, false)
      else given (parse_bool_value (trim_space env.enforce_policy_errors))

  abbrev pub merged : ShimRuntimeConfig → Environment → Bool → Bool → ShimRuntimeConfig
  merged input env enforce set = record {
    policy_url = coalesce (input.policy_url ∷ env.policy_url ∷ "http://localhost:8080" ∷ []);
    api_token = coalesce (input.api_token ∷ env.api_token ∷ []);
    mode = coalesce (input.mode ∷ env.mode ∷ "enforced" ∷ []);
    event_sink = coalesce (input.event_sink ∷ env.event_sink ∷ []);
    shim_dir = coalesce (input.shim_dir ∷ env.shim_dir ∷ default_shim_dir env ∷ []);
    sensitive = input.sensitive;
    enforce_policy_errors = enforce;
    enforce_policy_errors_set = set;
  }

  unfoldable pub merge :
      ShimRuntimeConfig → Environment → Configured (Bool × Bool) → Configured ShimRuntimeConfig
  merge input env (err e) = err e
  merge input env (ok (enforce, set)) = ok (merged input env enforce set)

  unfoldable pub with_mode :
      ShimRuntimeConfig → Configured EnforcementMode → Configured ShimRuntimeConfig
  with_mode cfg (err e) = err e
  with_mode cfg (ok m) = ok (record cfg { mode = mode_name m })

  unfoldable pub check_mode : Configured ShimRuntimeConfig → Configured ShimRuntimeConfig
  unfolding with_mode
  check_mode (err e) = err e
  check_mode (ok cfg) = with_mode cfg (parse_mode cfg.mode)

  unfoldable pub resolve_runtime_config :
      ShimRuntimeConfig → Environment → Configured ShimRuntimeConfig
  unfolding check_mode merge
  resolve_runtime_config input env = check_mode (merge input env (resolve_enforce input env))

  -- The configuration that `run` resolves again, from its own flags and the command's.
  unfoldable pub run_config :
      ShimRuntimeConfig → ShimRuntimeConfig → Bool × Bool → ShimRuntimeConfig
  run_config flags cfg (enforce, set) = record {
    policy_url = coalesce (flags.policy_url ∷ cfg.policy_url ∷ []);
    api_token = coalesce (flags.api_token ∷ cfg.api_token ∷ []);
    mode = coalesce (flags.mode ∷ cfg.mode ∷ []);
    event_sink = coalesce (flags.event_sink ∷ cfg.event_sink ∷ []);
    shim_dir = cfg.shim_dir;
    sensitive = flags.sensitive || cfg.sensitive;
    enforce_policy_errors = if set then enforce else cfg.enforce_policy_errors;
    enforce_policy_errors_set = if set then true else cfg.enforce_policy_errors_set;
  }

  -- `newGate`: the mode and the option of the gate
  unfoldable pub gate_mode : ShimRuntimeConfig → EnforcementMode
  gate_mode cfg = elim (parse_mode cfg.mode) [ err _ ↦ EnforcementMode.enforced | ok m ↦ m ]
