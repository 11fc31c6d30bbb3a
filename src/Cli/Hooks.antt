-- ===== src/Cli/Hooks.antt =====
-- cmd/datafog-shim/main.go: installing and removing shims, on a system that is not Windows. The files are
-- a map from paths; the directories that `MkdirAll` makes are not in it. Flags arrive parsed.
use Prim.Native.Char.{code}
use datafog.Prelude.{
  String, Bool, true, false, not, ◌&&◌, ◌||◌, Option, none, some, List, [], ◌∷◌, ◌==◌, eqb, Dict,
  lookup, insert, delete, if◌then◌else◌,
}
use datafog.Strings.{Unicode, trim_space, has_prefix}
use datafog.Strings.Path.{clean, join_path}
use datafog.Adapters.{resolve}
use datafog.Shim.Gate.{EnforcementMode}
use datafog.Cli.Config.{
  ShimRuntimeConfig, Environment, ConfigError, Configured, ok, err, coalesce, default_shim_dir,
  mode_name, parse_mode, parse_bool_option,
}
use datafog.Cli.Script.{ManagedShimMetadata, build_shim_script, read_shim_metadata}

-- `locked` is a file that cannot be opened.
pub data Node : Type 0 where
  file : String → Node
  directory locked : Node

-- a write that does not open the file, and one that breaks off, leave different things behind
pub data Written : Type 0 where
  whole unopened : Written
  torn : String → Written

-- whether the system calls succeed
pub record Faults : Type 0 where
  pub mkdirs : Bool
  pub write : Written
  pub removes : Bool

-- filepath.Abs, os.Stat (whether it is a directory), exec.LookPath and os.Executable made absolute
pub record Host : Type 0 where
  pub abs : String → Option String
  pub stat : String → Option Bool
  pub look_path : String → Option String
  pub executable : Option String

pub data HookError : Type 0 where
  config : ConfigError → HookError
  one_command no_command no_adapter no_target no_executable : HookError
  target_missing target_is_directory : HookError
  mkdir_failed unreadable unmanaged write_failed missing remove_failed : HookError

pub data HookResult (A : Type 0) : Type 0 where
  done : A → HookResult A
  refused : HookError → HookResult A

pub record InstallFlags : Type 0 where
  pub adapter : String
  pub target : String
  pub force : Bool
  pub mode : String
  pub policy_url : String
  pub event_sink : String
  pub enforce_policy_errors : String
  pub shim_dir : String
  pub args : List String

pub record UninstallFlags : Type 0 where
  pub shim_dir : String
  pub force : Bool
  pub args : List String

pub data Read : Type 0 where
  absent closed : Read
  script : ManagedShimMetadata → Bool → Read

abbrev pub read_text : Option (ManagedShimMetadata × Bool) → Read
read_text none = closed
read_text (some (meta, managed)) = script meta managed

-- `readShimMetadata` at a path: a directory opens, and then cannot be read
unfoldable pub read_node : Option Node → Read
read_node none = absent
read_node (some directory) = closed
read_node (some locked) = closed
read_node (some (file text)) = read_text (read_shim_metadata text)

unfoldable pub shim_script_path : String → String → String
shim_script_path dir command = join_path dir command

-- what keeps `installShimScript` from writing
abbrev pub obstacle : Bool → Read → Option HookError
obstacle force absent = none
obstacle force closed = some unreadable
obstacle force (script meta managed) = if not managed && not force then some unmanaged else none

-- os.WriteFile
unfoldable pub write_shim : Written → String → String → Dict Node → HookResult String × Dict Node
write_shim whole path content files = (done path, insert path (file content) files)
write_shim unopened path content files = (refused write_failed, files)
write_shim (torn part) path content files = (refused write_failed, insert path (file part) files)

unfoldable pub write_unless :
    Option HookError → Written → String → String → Dict Node → HookResult String × Dict Node
unfolding write_shim
write_unless (some e) how path content files = (refused e, files)
write_unless none how path content files = write_shim how path content files

unfoldable pub metadata_of :
    ShimRuntimeConfig → EnforcementMode → String → String → String → ManagedShimMetadata
metadata_of cfg mode command adapter target = record {
  command = command;
  adapter = adapter;
  target = target;
  mode = mode_name mode;
  policy_url = cfg.policy_url;
  event_sink = cfg.event_sink;
  enforce_policy_errors = cfg.enforce_policy_errors;
}

unfoldable pub contains_slash : String → Bool
contains_slash String.[] = false
contains_slash (String.◌∷◌ c s) =
    let rest = contains_slash s in if eqb (code c) 47 then true else rest

module _ (host : Host) where
  unfoldable pub target_at : Option String → HookResult String
  target_at none = refused no_target
  target_at (some abs) = elim (host.stat abs) [
    | none ↦ refused target_missing
    | some is_dir ↦ if is_dir then refused target_is_directory else done abs
  ]

  abbrev pub found_on_path : Option String → HookResult String
  found_on_path none = refused target_missing
  found_on_path (some bin) = done (clean bin)

  unfoldable pub resolve_target_binary : String → HookResult String
  unfolding target_at contains_slash
  resolve_target_binary raw =
      if trim_space raw == ""
      then refused no_target
      else if contains_slash (trim_space raw) || has_prefix (trim_space raw) "."
      then target_at (host.abs (trim_space raw))
      else found_on_path (host.look_path (trim_space raw))

unfoldable pub shim_path : Environment → ShimRuntimeConfig → String → String
unfolding shim_script_path
shim_path env cfg command =
    shim_script_path (coalesce (cfg.shim_dir ∷ default_shim_dir env ∷ [])) command

module _ ⦃u : Unicode⦄ (faults : Faults) (env : Environment) where
  -- `installShimScript` behind `parseMode`
  unfoldable pub install_in_mode :
      Configured EnforcementMode
      → String
      → ShimRuntimeConfig
      → String
      → String
      → String
      → Bool
      → Dict Node
      → HookResult String × Dict Node
  unfolding write_unless shim_path read_node
  install_in_mode (err e) shim_binary cfg command adapter target force files =
      (refused (config e), files)
  install_in_mode (ok mode) shim_binary cfg command adapter target force files =
      let path = shim_path env cfg command in
      if not faults.mkdirs
      then (refused mkdir_failed, files)
      else write_unless (obstacle force (read_node (lookup path files))) faults.write path
          (build_shim_script shim_binary (metadata_of cfg mode command adapter target)) files

  unfoldable pub install_shim_script :
      String
      → ShimRuntimeConfig
      → String
      → String
      → String
      → Bool
      → Dict Node
      → HookResult String × Dict Node
  unfolding install_in_mode
  install_shim_script shim_binary cfg command adapter target force files =
      install_in_mode (parse_mode (coalesce (cfg.mode ∷ "enforced" ∷ []))) shim_binary cfg command
        (resolve adapter command) target force files

  -- the configuration with the flags of `hooks install`
  unfoldable pub install_config : ShimRuntimeConfig → InstallFlags → Bool × Bool → ShimRuntimeConfig
  install_config cfg flags (enforce, set) = record cfg {
    mode = coalesce (flags.mode ∷ cfg.mode ∷ []);
    policy_url = coalesce (flags.policy_url ∷ cfg.policy_url ∷ []);
    event_sink = coalesce (flags.event_sink ∷ cfg.event_sink ∷ []);
    enforce_policy_errors = if set then enforce else cfg.enforce_policy_errors;
    enforce_policy_errors_set = if set then true else cfg.enforce_policy_errors_set;
    shim_dir = clean (if flags.shim_dir == "" then cfg.shim_dir else flags.shim_dir);
  }

  unfoldable pub install_binary :
      ShimRuntimeConfig
      → InstallFlags
      → String
      → HookResult String
      → Option String
      → Dict Node
      → HookResult String × Dict Node
  unfolding install_shim_script
  install_binary cfg flags command (refused e) bin files = (refused e, files)
  install_binary cfg flags command (done target) none files = (refused no_executable, files)
  install_binary cfg flags command (done target) (some bin) files =
      install_shim_script bin cfg command (resolve flags.adapter command) target flags.force files

  unfoldable pub install_command :
      Host
      → ShimRuntimeConfig
      → InstallFlags
      → List String
      → Dict Node
      → HookResult String × Dict Node
  unfolding install_binary
  install_command host cfg flags [] files = (refused one_command, files)
  install_command host cfg flags (a ∷ b ∷ rest) files = (refused one_command, files)
  install_command host cfg flags (name ∷ []) files =
      let command = trim_space name in
      let target = trim_space flags.target in
      if command == ""
      then (refused no_command, files)
      else if resolve flags.adapter command == ""
      then (refused no_adapter, files)
      else install_binary cfg flags command
          (resolve_target_binary host (if target == "" then command else target)) host.executable
          files

  unfoldable pub install_given :
      Host
      → ShimRuntimeConfig
      → InstallFlags
      → Configured (Bool × Bool)
      → Dict Node
      → HookResult String × Dict Node
  unfolding install_command
  install_given host cfg flags (err e) files = (refused (config e), files)
  install_given host cfg flags (ok given) files =
      install_command host (install_config cfg flags given) flags flags.args files

  unfoldable pub run_hooks_install :
      Host → ShimRuntimeConfig → InstallFlags → Dict Node → HookResult String × Dict Node
  unfolding install_given
  run_hooks_install host cfg flags files =
      install_given host cfg flags (parse_bool_option flags.enforce_policy_errors) files

module _ (faults : Faults) where
  unfoldable pub remove_shim : Bool → String → Read → Dict Node → HookResult Unit × Dict Node
  remove_shim force path absent files = (refused missing, files)
  remove_shim force path closed files = (refused unreadable, files)
  remove_shim force path (script meta managed) files =
      if not managed && not force
      then (refused unmanaged, files)
      else if not faults.removes
      then (refused remove_failed, files)
      else (done tt, delete path files)

  unfoldable pub uninstall_command :
      String → Bool → List String → Dict Node → HookResult Unit × Dict Node
  unfolding remove_shim shim_script_path read_node
  uninstall_command dir force [] files = (refused one_command, files)
  uninstall_command dir force (a ∷ b ∷ rest) files = (refused one_command, files)
  uninstall_command dir force (name ∷ []) files =
      let path = shim_script_path dir (trim_space name) in
      if trim_space name == ""
      then (refused no_command, files)
      else remove_shim force path (read_node (lookup path files)) files

  unfoldable pub run_hooks_uninstall :
      ShimRuntimeConfig → UninstallFlags → Dict Node → HookResult Unit × Dict Node
  unfolding uninstall_command
  run_hooks_uninstall cfg flags files =
      uninstall_command (clean (if flags.shim_dir == "" then cfg.shim_dir else flags.shim_dir))
        flags.force flags.args files
