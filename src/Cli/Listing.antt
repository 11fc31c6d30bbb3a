-- ===== src/Cli/Listing.antt =====
-- cmd/datafog-shim/main.go: `listManagedShims`. What `os.ReadDir` gives is an argument: the entries of the
-- directory with whether each is a directory, or why there are none.
use Prim.Native.Char.{code}
use datafog.Prelude.{
  String, Bool, true, false, ◌||◌, ◌≡◌, refl, ap, sym, ◌∙◌, List, [], ◌∷◌, ◌++◌, ◌==◌, ltb, eqb,
  any, arith, Dict, lookup, if◌then◌else◌,
}
use datafog.Prelude.Sort.{stable_sort, insert_stable}
use datafog.Strings.Path.{clean, join_path}
use datafog.Cli.Config.{ShimRuntimeConfig}
use datafog.Cli.Script.{ManagedShimMetadata}
use datafog.Cli.Hooks.{
  Node, HookError, HookResult, done, refused, Read, absent, closed, script, read_node,
}

pub data Listing : Type 0 where
  no_directory unlistable : Listing
  entries : List (String × Bool) → Listing

-- the `<` of strings
unfoldable pub less_string : String → String → Bool
less_string s String.[] = false
less_string String.[] (String.◌∷◌ d t) = true
less_string (String.◌∷◌ c s) (String.◌∷◌ d t) =
    let rest = less_string s t in
    if ltb (code c) (code d) then true else if eqb (code c) (code d) then rest else false

abbrev pub by_command : ManagedShimMetadata → ManagedShimMetadata → Bool
by_command a b = less_string a.command b.command

-- an entry's name stands for a command that the script does not tell
unfoldable pub named : String → ManagedShimMetadata → ManagedShimMetadata
named name meta = if meta.command == "" then record meta { command = name } else meta

abbrev pub add_shim :
    ManagedShimMetadata
    → HookResult (List ManagedShimMetadata)
    → HookResult (List ManagedShimMetadata)
add_shim meta (refused e) = refused e
add_shim meta (done shims) = done (meta ∷ shims)

-- one turn of the loop, with what the later ones give
unfoldable pub add_entry :
    String → Read → HookResult (List ManagedShimMetadata) → HookResult (List ManagedShimMetadata)
unfolding named
add_entry name absent rest = refused HookError.missing
add_entry name closed rest = refused HookError.unreadable
add_entry name (script meta managed) rest =
    if managed then add_shim (named name meta) rest else rest

unfoldable pub collect :
    Dict Node → String → List (String × Bool) → HookResult (List ManagedShimMetadata)
unfolding add_entry
collect files dir [] = done []
collect files dir ((name, is_dir) ∷ more) =
    let rest = collect files dir more in
    if is_dir then rest else add_entry name (read_node (lookup (join_path dir name) files)) rest

abbrev pub sorted : HookResult (List ManagedShimMetadata) → HookResult (List ManagedShimMetadata)
sorted (refused e) = refused e
sorted (done shims) = done (stable_sort by_command shims)

unfoldable pub list_managed_shims :
    Dict Node → String → Listing → HookResult (List ManagedShimMetadata)
unfolding collect
list_managed_shims files dir no_directory = done []
list_managed_shims files dir unlistable = refused HookError.unreadable
list_managed_shims files dir (entries es) = sorted (collect files (clean dir) es)

unfoldable pub run_hooks_list :
    ShimRuntimeConfig → String → Dict Node → Listing → HookResult (List ManagedShimMetadata)
unfolding list_managed_shims
run_hooks_list cfg shim_dir files listing =
    list_managed_shims files (clean (if shim_dir == "" then cfg.shim_dir else shim_dir)) listing

module _ (test : ManagedShimMetadata → Bool) where
  any-insert_stable :
      (x : ManagedShimMetadata) (ys : List ManagedShimMetadata)
      → any test (insert_stable by_command x ys) ≡ (test x || any test ys)
  unfolding insert_stable
  any-insert_stable x [] = refl
  any-insert_stable x (y ∷ ys) = ground (arith, any-insert_stable x ys)

  any-stable_sort :
      (xs : List ManagedShimMetadata) → any test (stable_sort by_command xs) ≡ any test xs
  unfolding stable_sort
  any-stable_sort [] = refl
  any-stable_sort (x ∷ xs) =
      any-insert_stable x (stable_sort by_command xs) ∙ ap (λ b. test x || b) (any-stable_sort xs)

  abbrev any_done : HookResult (List ManagedShimMetadata) → Bool
  any_done (refused e) = true
  any_done (done shims) = any test shims

  any_done-sorted : (r : HookResult (List ManagedShimMetadata)) → any_done (sorted r) ≡ any_done r
  any_done-sorted (refused e) = refl
  any_done-sorted (done shims) = any-stable_sort shims

  any-add_shim :
      (meta : ManagedShimMetadata) (r : HookResult (List ManagedShimMetadata))
      → test meta ≡ true
      → any_done (add_shim meta r) ≡ true
  any-add_shim meta (refused e) h = refl
  any-add_shim meta (done shims) h = rw h refl

  any-later :
      (meta : ManagedShimMetadata) (r : HookResult (List ManagedShimMetadata))
      → any_done r ≡ true
      → any_done (add_shim meta r) ≡ true
  any-later meta (refused e) h = refl
  any-later meta (done shims) h = ground (arith, h)

  any-add_entry :
      (name : String) (r : Read) (rest : HookResult (List ManagedShimMetadata))
      → any_done rest ≡ true
      → any_done (add_entry name r rest) ≡ true
  unfolding add_entry
  any-add_entry name absent rest h = refl
  any-add_entry name closed rest h = refl
  any-add_entry name (script meta false) rest h = h
  any-add_entry name (script meta true) rest h = any-later (named name meta) rest h

  any-collect :
      (files : Dict Node) (dir name : String) (meta : ManagedShimMetadata)
      (before after : List (String × Bool))
      → read_node (lookup (join_path dir name) files) ≡ script meta true
      → test (named name meta) ≡ true
      → any_done (collect files dir (before ++ ((name, false) ∷ after))) ≡ true
  unfolding collect add_entry
  any-collect files dir name meta [] after r h =
      rw r (any-add_shim (named name meta) (collect files dir after) h)
  any-collect files dir name meta ((other, true) ∷ before) after r h =
      any-collect files dir name meta before after r h
  any-collect files dir name meta ((other, false) ∷ before) after r h =
      any-add_entry other (read_node (lookup (join_path dir other) files)) _
        (any-collect files dir name meta before after r h)

  -- When `hooks list` ends well it shows every managed script of the directory: each test that the
  -- script's metadata pass, under the entry's name if it tells no command, is passed by a listed shim.
  pub managed_shims_listed :
      (files : Dict Node) (dir name : String) (meta : ManagedShimMetadata)
      (before after : List (String × Bool)) (shims : List ManagedShimMetadata)
      → read_node (lookup (join_path (clean dir) name) files) ≡ script meta true
      → test (named name meta) ≡ true
      → list_managed_shims files dir (entries (before ++ ((name, false) ∷ after))) ≡ done shims
      → any test shims ≡ true
  unfolding list_managed_shims
  managed_shims_listed files dir name meta before after shims r h e =
      let es = before ++ ((name, false) ∷ after) in
      ap any_done (sym e)
      ∙ any_done-sorted (collect files (clean dir) es)
      ∙ any-collect files (clean dir) name meta before after r h
