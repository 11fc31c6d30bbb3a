-- ===== src/Cli/Installed.antt =====
-- An installed shim is read back, and removed again.
use datafog.Prelude.{
  String, Bool, true, false, ◌≡◌, refl, ap, sym, ◌∙◌, Option, none, some, [], ◌∷◌, ◌==◌, eq_iff,
  all, Dict, lookup, insert, delete, lookup-insert, lookup-delete, if◌then◌else◌, Bool-cases, inl,
  inr,
}
use datafog.Strings.{Unicode, trim_space}
use datafog.Adapters.{resolve}
use datafog.Shim.Gate.{EnforcementMode}
use datafog.Cli.Config.{ShimRuntimeConfig, Environment, Configured, ok, err, parse_mode, coalesce}
use datafog.Cli.Script.{
  ManagedShimMetadata, build_shim_script, read_shim_metadata, script_lines, too_long,
}
use datafog.Cli.Metadata.{is_line, as_read, read_shim_metadata-build_shim_script}
use datafog.Cli.Hooks.{
  Node, file, Written, whole, unopened, torn, Faults, HookError, HookResult, done, Read, script,
  read_node, write_shim, write_unless, install_in_mode, install_shim_script, metadata_of,
  remove_shim, uninstall_command, shim_path, shim_script_path,
}

-- the script is there whole, and the rest as before
abbrev IsWritten : String → String → Dict Node → HookResult String × Dict Node → Type 0
IsWritten path content files (answer, after) = after ≡ insert path (file content) files

write_shim_done :
    (how : Written) (path content : String) (files : Dict Node) (p : String)
    → (write_shim how path content files).0 ≡ done p
    → (p ≡ path) × IsWritten path content files (write_shim how path content files)
unfolding write_shim
write_shim_done whole path content files p h = (cc, refl)
write_shim_done unopened path content files p h = cc
write_shim_done (torn part) path content files p h = cc

write_unless_done :
    (e : Option HookError) (how : Written) (path content : String) (files : Dict Node) (p : String)
    → (write_unless e how path content files).0 ≡ done p
    → (p ≡ path) × IsWritten path content files (write_unless e how path content files)
unfolding write_unless
write_unless_done (some e) how path content files p h = cc
write_unless_done none how path content files p h = write_shim_done how path content files p h

read_written :
    (path content : String) (files : Dict Node) (meta : ManagedShimMetadata)
    → read_shim_metadata content ≡ some (meta, true)
    → read_node (lookup path (insert path (file content) files)) ≡ script meta true
unfolding read_node
read_written path content files meta h =
    rw (lookup-insert path path (file content) files, (eq_iff path path).1 refl, h) refl

removed :
    (faults : Faults) (path : String) (r : Read) (meta : ManagedShimMetadata) (files : Dict Node)
    → faults.removes ≡ true
    → r ≡ script meta true
    → remove_shim faults false path r files ≡ (done tt, delete path files)
unfolding remove_shim
removed faults path r meta files f h = rw (h, f) refl

back_again :
    (path other : String) (content : String) (files : Dict Node)
    → lookup other (delete path (insert path (file content) files))
      ≡ (if path == other then none else lookup other files)
back_again path other content files = elim (Bool-cases (path == other)) [
  | inl e ↦ lookup-delete path other _ ∙ (rw e refl)
  | inr e ↦
      lookup-delete path other _
      ∙ (rw e (lookup-insert path other (file content) files ∙ (rw e refl)))
]

uninstalled :
    (faults : Faults) (dir name path : String) (meta : ManagedShimMetadata) (files : Dict Node)
    → faults.removes ≡ true
    → (trim_space name == "") ≡ false
    → shim_script_path dir (trim_space name) ≡ path
    → read_node (lookup path files) ≡ script meta true
    → uninstall_command faults dir false (name ∷ []) files ≡ (done tt, delete path files)
unfolding uninstall_command
uninstalled faults dir name path meta files f named at h =
    rw (named, at) (removed faults path _ meta files f h)

module _ ⦃u : Unicode⦄ (faults : Faults) (env : Environment) where
  install_done :
      (m : Configured EnforcementMode) (mode : EnforcementMode) (bin : String)
      (cfg : ShimRuntimeConfig) (command adapter target path : String) (force : Bool)
      (files : Dict Node)
      → m ≡ ok mode
      → (install_in_mode faults env m bin cfg command adapter target force files).0 ≡ done path
      → (path ≡ shim_path env cfg command)
        × IsWritten
            (shim_path env cfg command)
            (build_shim_script bin (metadata_of cfg mode command adapter target))
            files
            (install_in_mode faults env m bin cfg command adapter target force files)
  unfolding install_in_mode
  install_done (err e) mode bin cfg command adapter target path force files is h = cc
  install_done (ok n) mode bin cfg command adapter target path force files is h =
      let same : n ≡ mode = cc in
      elim (Bool-cases faults.mkdirs) [
        | inr m ↦ cc (rw m at h)
        | inl m ↦ rw (m, ← same) (write_unless_done _ _ _ _ files path (rw m at h))
      ]

  -- After a successful `hooks install` the script at the path reads as managed, with the metadata of
  -- the installation, if no line of it holds a newline or is too long for the reader. A `hooks
  -- uninstall` of the command, without --force, then removes it and nothing else: every path is as
  -- before the installation, and nothing is at the script's.
  pub uninstall_undoes_install :
      (later : Faults) (bin : String) (cfg : ShimRuntimeConfig)
      (command adapter target path : String) (force : Bool) (files : Dict Node)
      (mode : EnforcementMode) (dir name : String)
      → parse_mode (coalesce (cfg.mode ∷ "enforced" ∷ [])) ≡ ok mode
      → (install_shim_script faults env bin cfg command adapter target force files).0 ≡ done path
      → all is_line
          (script_lines bin (metadata_of cfg mode command (resolve adapter command) target))
        ≡ true
      → too_long (script_lines bin (metadata_of cfg mode command (resolve adapter command) target))
        ≡ false
      → later.removes ≡ true
      → (trim_space name == "") ≡ false
      → shim_script_path dir (trim_space name) ≡ path
      → let after = (install_shim_script faults env bin cfg command adapter target force files).1 in
        (read_node (lookup path after)
          ≡ script (as_read (metadata_of cfg mode command (resolve adapter command) target)) true)
        × ((uninstall_command later dir false (name ∷ []) after).0 ≡ done tt)
        × ((other : String)
            → lookup other (uninstall_command later dir false (name ∷ []) after).1
              ≡ (if path == other then none else lookup other files))
  unfolding install_shim_script
  uninstall_undoes_install later bin cfg command adapter target path force files mode dir name m h
        lines short removes named at =
      let meta = metadata_of cfg mode command (resolve adapter command) target in
      let content = build_shim_script bin meta in
      let after = (install_shim_script faults env bin cfg command adapter target force files).1 in
      let (here, written) =
        install_done _ mode bin cfg command (resolve adapter command) target path force files m h in
      let kept : after ≡ insert path (file content) files =
        written ∙ ap (λ p. insert p (file content) files) (sym here) in
      let reads : read_node (lookup path after) ≡ script (as_read meta) true =
        ap (λ d. read_node (lookup path d)) kept
        ∙ read_written path content files (as_read meta)
            (read_shim_metadata-build_shim_script bin meta lines short) in
      let gone = uninstalled later dir name path (as_read meta) after removes named at reads in
      (
        reads,
        ap (λ y. y.0) gone,
        λ other.
            ap (λ y. lookup other y.1) gone
            ∙ ap (λ d. lookup other (delete path d)) kept
            ∙ back_again path other content files,
      )
