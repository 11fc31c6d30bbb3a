-- ===== src/Examples/HookRuns.antt =====
-- cmd/datafog-shim/main.go, the hook commands, run.
use datafog.Prelude.{
  String, true, false, not, ◌≡◌, refl, Option, none, some, List, [], ◌∷◌, ◌==◌, all, Dict, lookup,
  if◌then◌else◌,
}
use datafog.Strings.{ascii_tables, trim_space}
use datafog.Adapters
use datafog.Adapters.{resolve}
use datafog.Shim.Gate.{EnforcementMode}
use datafog.Cli.Config.{ok, parse_mode, coalesce}
use datafog.Cli.Script.{ManagedShimMetadata, script_lines, too_long}
use datafog.Cli.Metadata.{is_line, as_read}
use datafog.Cli.Hooks.{
  Node, file, whole, torn, Faults, Host, HookResult, done, InstallFlags, UninstallFlags, script,
  read_node, install_shim_script, metadata_of, uninstall_command, shim_script_path,
}
use datafog.Cli.Ownership.{
  HookCall, install_call, uninstall_call, is_forced, is_foreign, run_hook_calls, foreign_files_stay,
}
use datafog.Cli.Installed.{uninstall_undoes_install}
use datafog.Examples.CliRuns.{environment, resolved}

abbrev no_faults : Faults
no_faults = record { mkdirs = true; write = whole; removes = true }

abbrev torn_writes : Faults
torn_writes = record { mkdirs = true; write = torn "#!"; removes = true }

abbrev machine : Host
machine = record {
  abs = λ path. some path;
  stat = λ path. some false;
  look_path = λ name. some "/usr/bin/git";
  executable = some "/opt/datafog-shim";
}

abbrev git_flags : InstallFlags
git_flags = record {
  adapter = "";
  target = "";
  force = false;
  mode = "";
  policy_url = "";
  event_sink = "";
  enforce_policy_errors = "";
  shim_dir = "";
  args = "git" ∷ [];
}

abbrev remove_git : UninstallFlags
remove_git = record { shim_dir = ""; force = false; args = "git" ∷ [] }

abbrev files : Dict Node
files = ("/home/me/.datafog/git", file "#!/bin/sh\nexec git\n") ∷ []

abbrev calls : List HookCall
calls =
    install_call no_faults git_flags
    ∷ install_call torn_writes (record git_flags { args = "docker" ∷ [] })
    ∷ uninstall_call no_faults remove_git
    ∷ []

unforced : all (λ c. not (is_forced c)) calls ≡ true
unfolding is_forced
unforced = refl

own_script : is_foreign (file "#!/bin/sh\nexec git\n") ≡ true
unfolding is_foreign read_node trim_space datafog.Cli.Script.read_shim_metadata
    datafog.Cli.Script.scan_lines datafog.Cli.Script.read_lines datafog.Cli.Script.read_trimmed
    datafog.Strings.has_prefix
own_script = refl

own_there : lookup "/home/me/.datafog/git" files ≡ some (file "#!/bin/sh\nexec git\n")
unfolding lookup
own_there = refl

foreign_example :
    lookup "/home/me/.datafog/git"
      (run_hook_calls ⦃u = ascii_tables⦄ environment machine resolved calls files)
    ≡ some (file "#!/bin/sh\nexec git\n")
foreign_example =
    foreign_files_stay ⦃u = ascii_tables⦄ environment machine resolved calls "/home/me/.datafog/git"
      (file "#!/bin/sh\nexec git\n") files unforced own_script own_there

observed :
    parse_mode ⦃u = ascii_tables⦄ (coalesce (resolved.mode ∷ "enforced" ∷ []))
    ≡ ok EnforcementMode.observe
unfolding parse_mode coalesce trim_space datafog.Strings.to_lower
observed = refl

abbrev no_files : Dict Node
no_files = []

abbrev installed : HookResult String × Dict Node
installed =
    install_shim_script ⦃u = ascii_tables⦄ no_faults environment "/opt/datafog-shim" resolved "git"
      "git" "/usr/bin/git" false no_files

installs : installed.0 ≡ done "/home/me/.datafog/git"
unfolding install_shim_script parse_mode coalesce trim_space lookup datafog.Strings.to_lower
    datafog.Strings.Path.join_path datafog.Strings.Path.clean
installs = refl

git_normal : datafog.Adapters.normalize ⦃u = ascii_tables⦄ "git" ≡ "git"
unfolding datafog.Adapters.normalize trim_space datafog.Strings.Path.base
    datafog.Adapters.trim_suffix datafog.Strings.to_lower
git_normal = refl

git_canonical : datafog.Adapters.canonical ⦃u = ascii_tables⦄ "git" ≡ some "vcs"
unfolding datafog.Adapters.canonical lookup datafog.Adapters.canonical_by_alias
    datafog.Prelude.insert datafog.Strings.to_lower
git_canonical = refl

git_resolved : resolve ⦃u = ascii_tables⦄ "git" "git" ≡ "vcs"
unfolding resolve
git_resolved = rw (git_normal, git_canonical) refl

at_path : shim_script_path "/home/me/.datafog" (trim_space " git") ≡ "/home/me/.datafog/git"
unfolding shim_script_path trim_space datafog.Strings.Path.join_path datafog.Strings.Path.clean
at_path = refl

named : (trim_space " git" == "") ≡ false
unfolding trim_space
named = refl

abbrev told : ManagedShimMetadata
told =
    metadata_of resolved EnforcementMode.observe "git" (resolve ⦃u = ascii_tables⦄ "git" "git")
      "/usr/bin/git"

told_lines : all is_line (script_lines "/opt/datafog-shim" told) ≡ true
unfolding script_lines is_line datafog.Cli.Script.meta_lines metadata_of
    datafog.Cli.Script.body_lines datafog.Cli.Quote.sh_quote datafog.Strings.Append.replace_char
    datafog.Cli.Quote.shell_escape trim_space
told_lines = rw git_resolved refl

told_short : too_long (script_lines "/opt/datafog-shim" told) ≡ false
unfolding script_lines datafog.Cli.Script.meta_lines metadata_of datafog.Cli.Script.body_lines
    datafog.Cli.Quote.sh_quote datafog.Strings.Append.replace_char datafog.Cli.Quote.shell_escape
    trim_space
told_short = rw git_resolved refl

undoes_example :
    (read_node (lookup "/home/me/.datafog/git" installed.1) ≡ script (as_read told) true)
    × ((uninstall_command no_faults "/home/me/.datafog" false (" git" ∷ []) installed.1).0
        ≡ done tt)
    × ((other : String)
        → lookup other
            (uninstall_command no_faults "/home/me/.datafog" false (" git" ∷ []) installed.1).1
          ≡ (if "/home/me/.datafog/git" == other then none else lookup other no_files))
undoes_example =
    uninstall_undoes_install ⦃u = ascii_tables⦄ no_faults environment no_faults "/opt/datafog-shim"
      resolved "git" "git" "/usr/bin/git" "/home/me/.datafog/git" false no_files
      EnforcementMode.observe "/home/me/.datafog" " git" observed installs told_lines told_short
      refl named at_path
