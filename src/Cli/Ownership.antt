-- ===== src/Cli/Ownership.antt =====
-- What the hook commands leave alone, and what they undo.
use datafog.Prelude.{
  String, Bool, true, false, not, ◌≡◌, ◌⊎◌, refl, ap, sym, ◌∙◌, Option, none, some, List, [], ◌∷◌,
  ◌==◌, eq_iff, arith, all, Dict, lookup, insert, delete, lookup-insert, lookup-delete, Bool-cases,
  inl, inr,
}
use datafog.Strings.{Unicode, trim_space}
use datafog.Adapters.{resolve}
use datafog.Shim.Gate.{EnforcementMode}
use datafog.Cli.Config.{ShimRuntimeConfig, Environment, Configured, ok, err}
use datafog.Cli.Script.{ManagedShimMetadata, read_shim_metadata}
use datafog.Cli.Hooks.{
  Node, file, directory, locked, Written, whole, unopened, torn, Faults, Host, HookError,
  HookResult, done, refused, InstallFlags, UninstallFlags, Read, absent, closed, script, read_node,
  obstacle, write_shim, write_unless, install_in_mode, install_shim_script, install_binary,
  install_command, install_given, run_hooks_install, remove_shim, uninstall_command,
  run_hooks_uninstall, shim_path, shim_script_path, read_text,
}

-- one call of `hooks install` or `hooks uninstall`, with how the system calls end for it
pub data HookCall : Type 0 where
  install_call : Faults → InstallFlags → HookCall
  uninstall_call : Faults → UninstallFlags → HookCall

unfoldable pub is_forced : HookCall → Bool
is_forced (install_call faults flags) = flags.force
is_forced (uninstall_call faults flags) = flags.force

abbrev is_managed : Read → Bool
is_managed absent = false
is_managed closed = false
is_managed (script meta managed) = managed

-- not a file with the marker of a shim
unfoldable pub is_foreign : Node → Bool
is_foreign node = not (is_managed (read_node (some node)))

written_elsewhere :
    (path other : String) (node new : Node) (files : Dict Node)
    → (path == other) ≡ false
    → lookup other files ≡ some node
    → lookup other (insert path new files) ≡ some node
written_elsewhere path other node new files apart h =
    lookup-insert path other new files ∙ (rw apart h)

write_elsewhere :
    (how : Written) (path content other : String) (node : Node) (files : Dict Node)
    → (path == other) ≡ false
    → lookup other files ≡ some node
    → lookup other (write_shim how path content files).1 ≡ some node
unfolding write_shim
write_elsewhere whole path content other node files apart h =
    written_elsewhere path other node (file content) files apart h
write_elsewhere unopened path content other node files apart h = h
write_elsewhere (torn part) path content other node files apart h =
    written_elsewhere path other node (file part) files apart h

write_unless_elsewhere :
    (e : Option HookError) (how : Written) (path content other : String) (node : Node)
    (files : Dict Node)
    → (path == other) ≡ false
    → lookup other files ≡ some node
    → lookup other (write_unless e how path content files).1 ≡ some node
unfolding write_unless
write_unless_elsewhere (some e) how path content other node files apart h = h
write_unless_elsewhere none how path content other node files apart h =
    write_elsewhere how path content other node files apart h

-- a foreign file stands in the way of an installation that is not forced
foreign_obstacle :
    (r : Read)
    → is_managed r ≡ false
    → (r ≡ absent) ⊎ ((e : HookError) × (obstacle false r ≡ some e))
foreign_obstacle absent h = inl refl
foreign_obstacle closed h = inr (HookError.unreadable, refl)
foreign_obstacle (script meta managed) h = inr (HookError.unmanaged, rw h refl)

is_absent : Read → Bool
is_absent absent = true
is_absent closed = false
is_absent (script meta managed) = false

text_is_there : (o : Option (ManagedShimMetadata × Bool)) → is_absent (read_text o) ≡ false
unfolding is_absent
text_is_there none = refl
text_is_there (some (meta, managed)) = refl

node_is_there : (node : Node) → is_absent (read_node (some node)) ≡ false
unfolding read_node is_absent
node_is_there (file text) = text_is_there (read_shim_metadata text)
node_is_there directory = refl
node_is_there locked = refl

write_unless_foreign :
    (how : Written) (path content : String) (node : Node) (files : Dict Node)
    → is_foreign node ≡ true
    → lookup path files ≡ some node
    → lookup path
        (write_unless (obstacle false (read_node (lookup path files))) how path content files).1
      ≡ some node
unfolding is_foreign write_unless is_absent
write_unless_foreign how path content node files foreign h =
    elim (foreign_obstacle (read_node (some node)) (ground (arith, foreign))) [
      | inl e ↦ let no : true ≡ false = ap is_absent (sym e) ∙ node_is_there node in cc
      | inr (e, is) ↦ rw (h, is) h
    ]

write_unless_stays :
    (how : Written) (path content other : String) (node : Node) (files : Dict Node)
    → is_foreign node ≡ true
    → lookup other files ≡ some node
    → lookup other
        (write_unless (obstacle false (read_node (lookup path files))) how path content files).1
      ≡ some node
write_unless_stays how path content other node files foreign h = elim (Bool-cases (path == other)) [
  | inr apart ↦ write_unless_elsewhere _ how path content other node files apart h
  | inl e ↦
      let same : path ≡ other = (eq_iff path other).0 e in
      let after : Dict Node =
        (write_unless (obstacle false (read_node (lookup path files))) how path content files).1 in
      ap (λ p. lookup p after) (sym same)
      ∙ write_unless_foreign how path content node files foreign (ap (λ p. lookup p files) same ∙ h)
]

deleted_elsewhere :
    (path other : String) (node : Node) (files : Dict Node)
    → (path == other) ≡ false
    → lookup other files ≡ some node
    → lookup other (delete path files) ≡ some node
deleted_elsewhere path other node files apart h = lookup-delete path other files ∙ (rw apart h)

remove_stays :
    (faults : Faults) (path other : String) (node : Node) (files : Dict Node) (r : Read)
    → read_node (lookup path files) ≡ r
    → is_foreign node ≡ true
    → lookup other files ≡ some node
    → lookup other (remove_shim faults false path r files).1 ≡ some node
unfolding remove_shim is_foreign
remove_stays faults path other node files absent e foreign h = h
remove_stays faults path other node files closed e foreign h = h
remove_stays faults path other node files (script meta false) e foreign h = h
remove_stays faults path other node files (script meta true) e foreign h =
    elim (Bool-cases faults.removes) [
      | inr kept ↦ rw kept h
      | inl gone ↦ elim (Bool-cases (path == other)) [
        | inr apart ↦ rw gone (deleted_elsewhere path other node files apart h)
        | inl same ↦
            let at : read_node (some node) ≡ script meta true =
              sym (ap read_node (ap (λ p. lookup p files) ((eq_iff path other).0 same) ∙ h)) ∙ e in
            cc (rw at at foreign)
      ]
    ]

module _ ⦃u : Unicode⦄ (faults : Faults) (env : Environment) where
  install_in_mode_stays :
      (mode : Configured EnforcementMode) (shim_binary : String) (cfg : ShimRuntimeConfig)
      (command adapter target path : String) (node : Node) (files : Dict Node)
      → is_foreign node ≡ true
      → lookup path files ≡ some node
      → lookup path
          (install_in_mode faults env mode shim_binary cfg command adapter target false files).1
        ≡ some node
  unfolding install_in_mode
  install_in_mode_stays (err e) shim_binary cfg command adapter target path node files f h = h
  install_in_mode_stays (ok mode) shim_binary cfg command adapter target path node files f h =
      elim (Bool-cases faults.mkdirs) [
        | inr m ↦ rw m h
        | inl m ↦
            rw m (write_unless_stays faults.write (shim_path env cfg command) _ path node files f h)
      ]

  install_binary_stays :
      (cfg : ShimRuntimeConfig) (flags : InstallFlags) (command : String)
      (target : HookResult String) (bin : Option String) (path : String) (node : Node)
      (files : Dict Node)
      → flags.force ≡ false
      → is_foreign node ≡ true
      → lookup path files ≡ some node
      → lookup path (install_binary faults env cfg flags command target bin files).1 ≡ some node
  unfolding install_binary install_shim_script
  install_binary_stays cfg flags command (refused e) bin path node files n f h = h
  install_binary_stays cfg flags command (done target) none path node files n f h = h
  install_binary_stays cfg flags command (done target) (some bin) path node files n f h =
      rw n (install_in_mode_stays _ bin cfg command _ target path node files f h)

  install_command_stays :
      (host : Host) (cfg : ShimRuntimeConfig) (flags : InstallFlags) (args : List String)
      (path : String) (node : Node) (files : Dict Node)
      → flags.force ≡ false
      → is_foreign node ≡ true
      → lookup path files ≡ some node
      → lookup path (install_command faults env host cfg flags args files).1 ≡ some node
  unfolding install_command
  install_command_stays host cfg flags [] path node files n f h = h
  install_command_stays host cfg flags (a ∷ b ∷ rest) path node files n f h = h
  install_command_stays host cfg flags (name ∷ []) path node files n f h =
      elim (Bool-cases (trim_space name == "")) [
        | inl e ↦ rw e h
        | inr e ↦ elim (Bool-cases (resolve flags.adapter (trim_space name) == "")) [
          | inl a ↦ rw (e, a) h
          | inr a ↦ rw (e, a) (install_binary_stays cfg flags _ _ _ path node files n f h)
        ]
      ]

  install_given_stays :
      (host : Host) (cfg : ShimRuntimeConfig) (flags : InstallFlags)
      (given : Configured (Bool × Bool)) (path : String) (node : Node) (files : Dict Node)
      → flags.force ≡ false
      → is_foreign node ≡ true
      → lookup path files ≡ some node
      → lookup path (install_given faults env host cfg flags given files).1 ≡ some node
  unfolding install_given
  install_given_stays host cfg flags (err e) path node files n f h = h
  install_given_stays host cfg flags (ok given) path node files n f h =
      install_command_stays host _ flags flags.args path node files n f h

uninstall_command_stays :
    (faults : Faults) (dir : String) (args : List String) (path : String) (node : Node)
    (files : Dict Node)
    → is_foreign node ≡ true
    → lookup path files ≡ some node
    → lookup path (uninstall_command faults dir false args files).1 ≡ some node
unfolding uninstall_command
uninstall_command_stays faults dir [] path node files f h = h
uninstall_command_stays faults dir (a ∷ b ∷ rest) path node files f h = h
uninstall_command_stays faults dir (name ∷ []) path node files f h =
    elim (Bool-cases (trim_space name == "")) [
      | inl e ↦ rw e h
      | inr e ↦
          rw e (
            remove_stays faults (shim_script_path dir (trim_space name)) path node files _ refl f h)
    ]

module _ ⦃u : Unicode⦄ (env : Environment) (host : Host) (cfg : ShimRuntimeConfig) where
  unfoldable pub run_hook : HookCall → Dict Node → Dict Node
  run_hook (install_call faults flags) files = (run_hooks_install faults env host cfg flags files).1
  run_hook (uninstall_call faults flags) files = (run_hooks_uninstall faults cfg flags files).1

  unfoldable pub run_hook_calls : List HookCall → Dict Node → Dict Node
  unfolding run_hook
  run_hook_calls [] files = files
  run_hook_calls (c ∷ calls) files = run_hook_calls calls (run_hook c files)

  run_hook_stays :
      (c : HookCall) (path : String) (node : Node) (files : Dict Node)
      → is_forced c ≡ false
      → is_foreign node ≡ true
      → lookup path files ≡ some node
      → lookup path (run_hook c files) ≡ some node
  unfolding run_hook is_forced run_hooks_install run_hooks_uninstall
  run_hook_stays (install_call faults flags) path node files n f h =
      install_given_stays faults env host cfg flags _ path node files n f h
  run_hook_stays (uninstall_call faults flags) path node files n f h =
      rw n (uninstall_command_stays faults _ flags.args path node files f h)

  -- Any sequence of `hooks install` and `hooks uninstall` without --force, whatever system calls fail
  -- in it, leaves every file that is not a shim's script as it is.
  pub foreign_files_stay :
      (calls : List HookCall) (path : String) (node : Node) (files : Dict Node)
      → all (λ c. not (is_forced c)) calls ≡ true
      → is_foreign node ≡ true
      → lookup path files ≡ some node
      → lookup path (run_hook_calls calls files) ≡ some node
  unfolding run_hook_calls
  foreign_files_stay [] path node files n f h = h
  foreign_files_stay (c ∷ calls) path node files n f h =
      foreign_files_stay calls path node (run_hook c files) (ground (arith, n)) f
        (run_hook_stays c path node files (ground (arith, n)) f h)
