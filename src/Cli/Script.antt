-- ===== src/Cli/Script.antt =====
-- cmd/datafog-shim/main.go: `buildShimScript`, and `readShimMetadata` on the text of a file.
use Prim.Native.Char.{Char, code}
use Prim.Native.String.{len}
use datafog.Prelude.{
  ℕ, ◌*◌, String, Bool, true, false, not, Option, none, some, List, [], ◌∷◌, ◌++◌, ◌==◌, eqb, leb,
  if◌then◌else◌,
}
use datafog.Strings.{trim_space, has_prefix}
use datafog.Strings.Append.{◌<>◌}
use datafog.Cli.Quote.{sh_quote, shell_escape}
use datafog.Cli.Config.{Configured, ok, err, parse_bool_option}

pub record ManagedShimMetadata : Type 0 where
  pub command : String
  pub adapter : String
  pub target : String
  pub mode : String
  pub policy_url : String
  pub event_sink : String
  pub enforce_policy_errors : Bool

abbrev pub no_metadata : ManagedShimMetadata
no_metadata = record {
  command = "";
  adapter = "";
  target = "";
  mode = "";
  policy_url = "";
  event_sink = "";
  enforce_policy_errors = false;
}

abbrev pub shim_marker : String
shim_marker = "# datafog-shim-wrapper"

abbrev pub shim_meta_prefix : String
shim_meta_prefix = "# DATAFOG_SHIM_"

-- strconv.FormatBool
abbrev pub format_bool : Bool → String
format_bool true = "true"
format_bool false = "false"

-- what the script says about itself
unfoldable pub meta_lines : ManagedShimMetadata → List String
meta_lines m =
    "# DATAFOG_SHIM_COMMAND=" <> m.command
    ∷ "# DATAFOG_SHIM_ADAPTER=" <> m.adapter
    ∷ "# DATAFOG_SHIM_TARGET=" <> m.target
    ∷ "# DATAFOG_SHIM_MODE=" <> m.mode
    ∷ "# DATAFOG_SHIM_POLICY_URL=" <> m.policy_url
    ∷ "# DATAFOG_SHIM_EVENT_SINK=" <> m.event_sink
    ∷ "# DATAFOG_SHIM_ENFORCE_POLICY_ERRORS=" <> format_bool m.enforce_policy_errors
    ∷ []

-- what the script does
unfoldable pub body_lines : String → ManagedShimMetadata → List String
body_lines shim_binary m =
    ""
    ∷ "SHIM_BINARY=" <> sh_quote shim_binary
    ∷ "SHIM_MODE=" <> sh_quote m.mode
    ∷ "SHIM_POLICY_URL=" <> sh_quote m.policy_url
    ∷ "SHIM_EVENT_SINK=" <> sh_quote m.event_sink
    ∷ "SHIM_ENFORCE_POLICY_ERRORS=" <> sh_quote (format_bool m.enforce_policy_errors)
    ∷ "if [ -n \"${DATAFOG_SHIM_MODE:-}\" ]; then"
    ∷ "  SHIM_MODE=\"$DATAFOG_SHIM_MODE\""
    ∷ "fi"
    ∷ "if [ -n \"${DATAFOG_SHIM_POLICY_URL:-}\" ]; then"
    ∷ "  SHIM_POLICY_URL=\"$DATAFOG_SHIM_POLICY_URL\""
    ∷ "fi"
    ∷ "if [ -n \"${DATAFOG_SHIM_EVENT_SINK:-}\" ]; then"
    ∷ "  SHIM_EVENT_SINK=\"$DATAFOG_SHIM_EVENT_SINK\""
    ∷ "fi"
    ∷ "if [ -n \"${DATAFOG_SHIM_ENFORCE_POLICY_ERRORS:-}\" ]; then"
    ∷ "  SHIM_ENFORCE_POLICY_ERRORS=\"$DATAFOG_SHIM_ENFORCE_POLICY_ERRORS\""
    ∷ "fi"
    ∷ ""
    ∷ "exec \"$SHIM_BINARY\" run \\"
    ∷ "  --adapter \"" <> (shell_escape m.adapter <> "\" \\")
    ∷ "  --target \"" <> (shell_escape m.target <> "\" \\")
    ∷ "  --mode \"$SHIM_MODE\" \\"
    ∷ "  --policy-url \"$SHIM_POLICY_URL\" \\"
    ∷ "  --event-sink \"$SHIM_EVENT_SINK\" \\"
    ∷ "  --enforce-policy-errors \"$SHIM_ENFORCE_POLICY_ERRORS\" \\"
    ∷ "  --api-token \"${DATAFOG_SHIM_API_TOKEN:-}\" \\"
    ∷ "  -- \\"
    ∷ "  \"$@\""
    ∷ []

unfoldable pub script_lines : String → ManagedShimMetadata → List String
script_lines shim_binary m =
    "#!/bin/sh" ∷ "set -eu" ∷ shim_marker ∷ (meta_lines m ++ body_lines shim_binary m)

-- `strings.Join` with a newline of lines and a last empty one
unfoldable pub join_lines : List String → String
join_lines [] = ""
join_lines (line ∷ lines) = line <> ("\n" <> join_lines lines)

unfoldable pub build_shim_script : String → ManagedShimMetadata → String
build_shim_script shim_binary m = join_lines (script_lines shim_binary m)

-- bufio.Scanner, by lines; the carriage return that it drops at the end of one is a space to TrimSpace
abbrev pub push : Char → List String → List String
push c [] = String.◌∷◌ c "" ∷ []
push c (line ∷ lines) = String.◌∷◌ c line ∷ lines

unfoldable pub scan_lines : String → List String
scan_lines String.[] = []
scan_lines (String.◌∷◌ c s) =
    let rest = scan_lines s in if eqb (code c) 10 then "" ∷ rest else push c rest

-- strings.TrimPrefix of a prefix that is there
unfoldable pub drop_prefix : String → String → String
drop_prefix String.[] s = s
drop_prefix (String.◌∷◌ d p) String.[] = String.[]
drop_prefix (String.◌∷◌ d p) (String.◌∷◌ c s) = drop_prefix p s

-- strings.SplitN(line, "=", 2), where that has two parts
abbrev pub in_first : Char → Option (String × String) → Option (String × String)
in_first c none = none
in_first c (some (key, val)) = some (String.◌∷◌ c key, val)

unfoldable pub split_pair : String → Option (String × String)
split_pair String.[] = none
split_pair (String.◌∷◌ c s) =
    let rest = split_pair s in if eqb (code c) 61 then some ("", s) else in_first c rest

abbrev pub with_enforce : ManagedShimMetadata → Configured (Bool × Bool) → ManagedShimMetadata
with_enforce meta (err e) = meta
with_enforce meta (ok (b, given)) = record meta { enforce_policy_errors = b }

-- the `switch` on the key
unfoldable pub set_field : String → String → ManagedShimMetadata → ManagedShimMetadata
set_field key val meta =
    if key == "COMMAND"
    then record meta { command = val }
    else if key == "ADAPTER"
    then record meta { adapter = val }
    else if key == "TARGET"
    then record meta { target = val }
    else if key == "MODE"
    then record meta { mode = val }
    else if key == "POLICY_URL"
    then record meta { policy_url = val }
    else if key == "EVENT_SINK"
    then record meta { event_sink = val }
    else if key == "ENFORCE_POLICY_ERRORS"
    then with_enforce meta (parse_bool_option val)
    else meta

unfoldable pub set_pair : Option (String × String) → ManagedShimMetadata → ManagedShimMetadata
set_pair none meta = meta
set_pair (some (key, val)) meta = set_field (trim_space key) (trim_space val) meta

-- one turn of the loop, on the trimmed line
unfoldable pub read_trimmed : String → ManagedShimMetadata × Bool → ManagedShimMetadata × Bool
read_trimmed line (meta, managed) =
    if line == ""
    then (meta, managed)
    else if line == shim_marker
    then (meta, true)
    else if not (has_prefix line shim_meta_prefix)
    then (meta, managed)
    else (set_pair (split_pair (trim_space (drop_prefix shim_meta_prefix line))) meta, managed)

unfoldable pub read_lines : List String → ManagedShimMetadata × Bool → ManagedShimMetadata × Bool
read_lines [] st = st
read_lines (line ∷ lines) st = read_lines lines (read_trimmed (trim_space line) st)

abbrev pub max_line_bytes : ℕ
max_line_bytes = 64 * 1024

abbrev pub too_long : List String → Bool
too_long [] = false
too_long (line ∷ lines) =
    let rest = too_long lines in if leb max_line_bytes (len line) then true else rest

-- the metadata and whether the file is managed, or none at a line that the scanner cannot hold
unfoldable pub read_shim_metadata : String → Option (ManagedShimMetadata × Bool)
read_shim_metadata content =
    if too_long (scan_lines content)
    then none
    else some (read_lines (scan_lines content) (no_metadata, false))
