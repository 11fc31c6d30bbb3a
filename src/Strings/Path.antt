-- ===== src/Strings/Path.antt =====
-- path/filepath on a system that is not Windows: Base, Clean, and Join of two elements.
pub mod Joined
pub mod Upward
use Prim.Native.Char.{Char, code}
use datafog.Prelude.{String, Bool, true, false, List, [], ◌∷◌, ◌≡◌, refl, ◌==◌, eqb, if◌then◌else◌}
use datafog.Strings.Append.{◌<>◌}

-- filepath.Base: trailing slashes go, then what stands up to the last slash; "." for an empty path
-- and "/" for one of slashes alone
abbrev is_slash : Char → Bool
is_slash c = eqb (code c) b'/'

cons_unless_slash : Char → String → String
cons_unless_slash c String.[] = if is_slash c then String.[] else String.◌∷◌ c String.[]
cons_unless_slash c (String.◌∷◌ d s) = String.◌∷◌ c (String.◌∷◌ d s)

strip_slashes : String → String
strip_slashes String.[] = String.[]
strip_slashes (String.◌∷◌ c s) = cons_unless_slash c (strip_slashes s)

after_last_slash : String → String → String
after_last_slash seen String.[] = seen
after_last_slash seen (String.◌∷◌ c s) = after_last_slash (if is_slash c then s else seen) s

unfoldable pub contains_slash : String → Bool
contains_slash String.[] = false
contains_slash (String.◌∷◌ c s) =
    let rest = contains_slash s in if eqb (code c) 47 then true else rest

unfoldable pub base : String → String
unfolding strip_slashes cons_unless_slash after_last_slash
base path =
    if path == ""
    then "."
    else let stripped = strip_slashes path in
      if stripped == "" then "/" else after_last_slash stripped stripped

abbrev pub push_part : Char → List String → List String
push_part c [] = String.◌∷◌ c "" ∷ []
push_part c (part ∷ parts) = String.◌∷◌ c part ∷ parts

-- the parts of a path between its slashes
unfoldable pub split_path : String → List String
split_path String.[] = "" ∷ []
split_path (String.◌∷◌ c s) =
    let rest = split_path s in if eqb (code c) 47 then "" ∷ rest else push_part c rest

abbrev pub is_rooted : String → Bool
is_rooted String.[] = false
is_rooted (String.◌∷◌ c s) = eqb (code c) 47

-- a part `..`, on the parts kept so far, the last one first
unfoldable pub go_up : Bool → List String → List String
go_up rooted [] = if rooted then [] else ".." ∷ []
go_up rooted (part ∷ parts) = if part == ".." then ".." ∷ part ∷ parts else parts

unfoldable pub keep_part : Bool → String → List String → List String
unfolding go_up
keep_part rooted part kept =
    if part == ""
    then kept
    else if part == "."
    then kept
    else if part == ".."
    then go_up rooted kept
    else part ∷ kept

unfoldable pub keep_parts : Bool → List String → List String → List String
keep_parts rooted [] kept = kept
keep_parts rooted (part ∷ parts) kept = keep_parts rooted parts (keep_part rooted part kept)

-- the kept parts, the last one first, behind a text
unfoldable pub join_parts : List String → String → String
join_parts [] end = end
join_parts (part ∷ []) end = part <> end
join_parts (part ∷ more ∷ parts) end = join_parts (more ∷ parts) ("/" <> (part <> end))

abbrev pub parts_of : String → List String
parts_of path = keep_parts (is_rooted path) (split_path path) []

abbrev pub or_dot : String → String
or_dot path = if path == "" then "." else path

-- filepath.Clean
unfoldable pub clean : String → String
unfolding split_path keep_part keep_parts join_parts
clean path =
    if is_rooted path
    then "/" <> join_parts (parts_of path) ""
    else or_dot (join_parts (parts_of path) "")

-- filepath.Join(dir, name)
unfoldable pub join_path : String → String → String
join_path dir name =
    if dir == "" then (if name == "" then "" else clean name) else clean (dir <> ("/" <> name))

clean_test : clean "/a//b/../c/." ≡ "/a/c"
unfolding clean
clean_test = refl

clean_up_test : clean "../a/../../b" ≡ "../../b"
unfolding clean
clean_up_test = refl

clean_empty_test : clean "a/.." ≡ "."
unfolding clean
clean_empty_test = refl

join_test : join_path "/home/me" "git" ≡ "/home/me/git"
unfolding join_path clean
join_test = refl
