-- ===== src/Cli/Metadata.antt =====
-- The script that the shim installs tells its metadata back.
use Prim.Native.Char.{Char, code}
use datafog.Prelude.{
  String, Bool, true, false, not, ◌&&◌, some, List, [], ◌∷◌, ◌++◌, ◌≡◌, refl, ap, ◌∙◌, ◌==◌, eq_iff,
  eqb, arith, all, if◌then◌else◌, Bool-cases, inl, inr,
}
use datafog.Strings.{is_space, trim_left, trim_right, trim_space, has_prefix}
use datafog.Strings.Append.{◌<>◌, append_assoc}
use datafog.Strings.Trim.{
  ends_solid, trim_space-trim_right, trim_space_solid, starts_solid, trim_space-append,
}
use datafog.Cli.Config.{parse_bool_option, parse_bool_value, parse_bool}
use datafog.Cli.Script.{
  ManagedShimMetadata, no_metadata, shim_marker, shim_meta_prefix, format_bool, meta_lines,
  body_lines, script_lines, join_lines, build_shim_script, push, scan_lines, drop_prefix, in_first,
  split_pair, with_enforce, set_field, set_pair, read_trimmed, read_lines, too_long,
  read_shim_metadata,
}

-- without a newline
unfoldable pub is_line : String → Bool
is_line String.[] = true
is_line (String.◌∷◌ c s) = let rest = is_line s in if eqb (code c) 10 then false else rest

scan_line :
    (line s : String) → is_line line ≡ true → scan_lines (line <> ("\n" <> s)) ≡ line ∷ scan_lines s
unfolding is_line scan_lines
scan_line String.[] s h = refl
scan_line (String.◌∷◌ c line) s h = elim (Bool-cases (eqb (code c) 10)) [
  | inl e ↦ cc (rw e at h)
  | inr e ↦ rw e (ap (push c) (scan_line line s (rw e at h)))
]

scan-join_lines :
    (lines : List String) → all is_line lines ≡ true → scan_lines (join_lines lines) ≡ lines
unfolding join_lines scan_lines
scan-join_lines [] h = refl
scan-join_lines (line ∷ lines) h =
    scan_line line _ (ground (arith, h)) ∙ ap (◌∷◌ line) (scan-join_lines lines (ground (arith, h)))

-- a text that begins with something other than a space or a number sign
abbrev is_other : Char → Bool
is_other c = not (is_space c) && not (eqb (code c) 35)

first_is_sign : String → Bool
first_is_sign String.[] = false
first_is_sign (String.◌∷◌ c s) = eqb (code c) 35

-- texts that a test tells apart
differ : (test : String → Bool) (s t : String) → test s ≡ false → test t ≡ true → (s == t) ≡ false
differ test s t h k = elim (Bool-cases (s == t)) [
  | inl e ↦ cc (h, k, ap test ((eq_iff s t).0 e))
  | inr e ↦ e
]

apart : (test : String → Bool) (s t : String) → test s ≡ true → test t ≡ false → (s == t) ≡ false
apart test s t h k = elim (Bool-cases (s == t)) [
  | inl e ↦ cc (h, k, ap test ((eq_iff s t).0 e))
  | inr e ↦ e
]

read_trimmed_other :
    (c : Char) (s : String) (st : ManagedShimMetadata × Bool)
    → eqb (code c) 35 ≡ false
    → read_trimmed (String.◌∷◌ c s) st ≡ st
unfolding read_trimmed has_prefix first_is_sign
read_trimmed_other c s (meta, managed) h =
    let no_marker = differ first_is_sign (String.◌∷◌ c s) shim_marker h refl in
    elim (Bool-cases (String.◌∷◌ c s == "")) [
      | inl e ↦ rw e refl
      | inr e ↦ rw (e, no_marker, h) refl
    ]

read_other :
    (c : Char) (s : String) (st : ManagedShimMetadata × Bool)
    → is_space c ≡ false
    → eqb (code c) 35 ≡ false
    → read_trimmed (trim_space (String.◌∷◌ c s)) st ≡ st
read_other c s st h k =
    ap (λ l. read_trimmed l st) (trim_space_solid c s h) ∙ read_trimmed_other c _ st k

has_no_equals : String → Bool
has_no_equals String.[] = true
has_no_equals (String.◌∷◌ c s) =
    let rest = has_no_equals s in if eqb (code c) 61 then false else rest

split_pair_key :
    (key val : String)
    → has_no_equals key ≡ true
    → split_pair (key <> ("=" <> val)) ≡ some (key, val)
unfolding split_pair has_no_equals
split_pair_key String.[] val h = refl
split_pair_key (String.◌∷◌ c key) val h = elim (Bool-cases (eqb (code c) 61)) [
  | inl e ↦ cc (rw e at h)
  | inr e ↦ rw e (ap (in_first c) (split_pair_key key val (rw e at h)))
]

is_meta : String → Bool
unfolding has_prefix
is_meta s = has_prefix s shim_meta_prefix

read_trimmed_meta :
    (rest : String) (meta : ManagedShimMetadata) (managed : Bool)
    → read_trimmed (shim_meta_prefix <> rest) (meta, managed)
      ≡ (set_pair (split_pair (trim_space rest)) meta, managed)
unfolding read_trimmed is_meta has_prefix drop_prefix
read_trimmed_meta rest meta managed =
    let line = shim_meta_prefix <> rest in
    rw (apart is_meta line "" refl refl, apart is_meta line shim_marker refl refl) refl

-- the line of a key
read_value :
    (k val : String) (meta : ManagedShimMetadata) (managed : Bool)
    → starts_solid (shim_meta_prefix <> (k <> "=")) ≡ true
    → ends_solid (shim_meta_prefix <> (k <> "=")) ≡ true
    → starts_solid (k <> "=") ≡ true
    → ends_solid (k <> "=") ≡ true
    → has_no_equals k ≡ true
    → trim_space k ≡ k
    → read_trimmed (trim_space ((shim_meta_prefix <> (k <> "=")) <> val)) (meta, managed)
      ≡ (set_field k (trim_space val) meta, managed)
unfolding set_pair
read_value k val meta managed starts ends starts_key ends_key plain trimmed =
    let pair : trim_space ((k <> "=") <> trim_right val)
        ≡ k <> ("=" <> trim_right (trim_right val)) =
      trim_space-append (k <> "=") (trim_right val) starts_key ends_key
      ∙ append_assoc k "=" (trim_right (trim_right val)) in
    ap (λ l. read_trimmed l (meta, managed))
      (trim_space-append (shim_meta_prefix <> (k <> "=")) val starts ends)
    ∙ read_trimmed_meta ((k <> "=") <> trim_right val) meta managed
    ∙ ap (λ l. (set_pair (split_pair l) meta, managed)) pair
    ∙ ap (λ o. (set_pair o meta, managed)) (split_pair_key k _ plain)
    ∙ ap (λ l. (set_field l (trim_space (trim_right (trim_right val))) meta, managed)) trimmed
    ∙ ap (λ v. (set_field k v meta, managed))
        (trim_space-trim_right (trim_right val) ∙ trim_space-trim_right val)

read_empty : (st : ManagedShimMetadata × Bool) → read_trimmed (trim_space "") st ≡ st
unfolding read_trimmed trim_space trim_left trim_right
read_empty (meta, managed) = refl

trim_space_blank :
    (c : Char) (s : String) → is_space c ≡ true → trim_space (String.◌∷◌ c s) ≡ trim_space s
unfolding trim_space trim_left
trim_space_blank c s h = rw h refl

-- a line without content, or whose content does not begin with a number sign
is_other_line : String → Bool
is_other_line String.[] = true
is_other_line (String.◌∷◌ c s) =
    let rest = is_other_line s in if is_space c then rest else not (eqb (code c) 35)

read_other_line :
    (s : String) (st : ManagedShimMetadata × Bool)
    → is_other_line s ≡ true
    → read_trimmed (trim_space s) st ≡ st
unfolding is_other_line trim_left
read_other_line String.[] st h = read_empty st
read_other_line (String.◌∷◌ c s) st h = elim (Bool-cases (is_space c)) [
  | inl e ↦ ap (λ l. read_trimmed l st) (trim_space_blank c s e) ∙ read_other_line s st (rw e at h)
  | inr e ↦ read_other c s st e (ground (arith, (rw e at h)))
]

all_other : List String → Bool
all_other [] = true
all_other (line ∷ lines) = let rest = all_other lines in if is_other_line line then rest else false

read_other_lines :
    (lines : List String) (st : ManagedShimMetadata × Bool)
    → all_other lines ≡ true
    → read_lines lines st ≡ st
unfolding read_lines all_other
read_other_lines [] st h = refl
read_other_lines (line ∷ lines) st h = elim (Bool-cases (is_other_line line)) [
  | inl e ↦
      ap (read_lines lines) (read_other_line line st e) ∙ read_other_lines lines st (rw e at h)
  | inr e ↦ cc (rw e at h)
]

-- the values without the space around them
pub as_read : ManagedShimMetadata → ManagedShimMetadata
as_read m = record {
  command = trim_space m.command;
  adapter = trim_space m.adapter;
  target = trim_space m.target;
  mode = trim_space m.mode;
  policy_url = trim_space m.policy_url;
  event_sink = trim_space m.event_sink;
  enforce_policy_errors = m.enforce_policy_errors;
}

read_meta :
    (k val : String) (meta : ManagedShimMetadata) (managed : Bool) (lines : List String)
    → (starts_solid (shim_meta_prefix <> (k <> "=")) ≡ true)
      × (ends_solid (shim_meta_prefix <> (k <> "=")) ≡ true)
      × (starts_solid (k <> "=") ≡ true)
      × (ends_solid (k <> "=") ≡ true)
      × (has_no_equals k ≡ true)
      × (trim_space k ≡ k)
    → read_lines (((shim_meta_prefix <> (k <> "=")) <> val) ∷ lines) (meta, managed)
      ≡ read_lines lines (set_field k (trim_space val) meta, managed)
unfolding read_lines
read_meta k val meta managed lines (a, b, c, d, e, f) =
    ap (read_lines lines) (read_value k val meta managed a b c d e f)

read_enforce :
    (b : Bool) (meta : ManagedShimMetadata)
    → with_enforce meta (parse_bool_option (trim_space (format_bool b)))
      ≡ record meta { enforce_policy_errors = b }
unfolding parse_bool_option parse_bool_value parse_bool trim_space trim_left trim_right
read_enforce true meta = refl
read_enforce false meta = refl

read_meta_lines :
    (m : ManagedShimMetadata) (lines : List String)
    → read_lines (meta_lines m ++ lines) (no_metadata, true) ≡ read_lines lines (as_read m, true)
unfolding meta_lines as_read set_field starts_solid ends_solid has_no_equals trim_space trim_left
    trim_right
read_meta_lines m lines =
    read_meta "COMMAND" _ _ _ _ (refl, refl, refl, refl, refl, refl)
    ∙ read_meta "ADAPTER" _ _ _ _ (refl, refl, refl, refl, refl, refl)
    ∙ read_meta "TARGET" _ _ _ _ (refl, refl, refl, refl, refl, refl)
    ∙ read_meta "MODE" _ _ _ _ (refl, refl, refl, refl, refl, refl)
    ∙ read_meta "POLICY_URL" _ _ _ _ (refl, refl, refl, refl, refl, refl)
    ∙ read_meta "EVENT_SINK" _ _ _ _ (refl, refl, refl, refl, refl, refl)
    ∙ read_meta "ENFORCE_POLICY_ERRORS" _ _ _ _ (refl, refl, refl, refl, refl, refl)
    ∙ ap (λ meta. read_lines lines (meta, true)) (read_enforce m.enforce_policy_errors _)

body_other :
    (shim_binary : String) (m : ManagedShimMetadata) → all_other (body_lines shim_binary m) ≡ true
unfolding body_lines is_other_line is_space all_other
body_other shim_binary m = refl

read_head :
    (shim_binary : String) (m : ManagedShimMetadata)
    → read_lines (script_lines shim_binary m) (no_metadata, false)
      ≡ read_lines (meta_lines m ++ body_lines shim_binary m) (no_metadata, true)
unfolding script_lines read_lines read_trimmed trim_space trim_left trim_right has_prefix
read_head shim_binary m = refl

-- The script that the shim installs tells its metadata back, without the space around each value,
-- and is known as the shim's own, if none of its lines holds a newline or is too long for the reader.
pub read_shim_metadata-build_shim_script :
    (shim_binary : String) (m : ManagedShimMetadata)
    → all is_line (script_lines shim_binary m) ≡ true
    → too_long (script_lines shim_binary m) ≡ false
    → read_shim_metadata (build_shim_script shim_binary m) ≡ some (as_read m, true)
unfolding read_shim_metadata build_shim_script
read_shim_metadata-build_shim_script shim_binary m lines short =
    rw (scan-join_lines _ lines, short)
      (ap some (
        read_head shim_binary m
        ∙ read_meta_lines m (body_lines shim_binary m)
        ∙ read_other_lines (body_lines shim_binary m) (as_read m, true) (body_other shim_binary m)))
