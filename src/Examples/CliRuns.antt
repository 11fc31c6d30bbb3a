-- ===== src/Examples/CliRuns.antt =====
-- cmd/datafog-shim/main.go, run.
use datafog.Prelude.{◌≡◌, refl, true, false, some, all}
use datafog.Strings.{trim_space}
use datafog.Strings.Append.{◌<>◌, replace_char}
use datafog.Cli.Quote.{sh_quote, shell_escape, word, bare, double, prepend}
use datafog.Cli.Words.{word-sh_quote, shell_escape_breaks}
use datafog.Cli.Config.{ShimRuntimeConfig, Environment}
use datafog.Cli.Script.{
  ManagedShimMetadata, script_lines, too_long, build_shim_script, read_shim_metadata,
}
use datafog.Cli.Metadata.{is_line, as_read, read_shim_metadata-build_shim_script}

quoted_example : word bare (sh_quote "it's $HOME") ≡ some "it's $HOME"
quoted_example = word-sh_quote "it's $HOME"

-- `\"; reboot`
command_trimmed : trim_space ("\\\"" <> "; reboot") ≡ "\\\"" <> "; reboot"
unfolding trim_space
command_trimmed = refl

breaks_example :
    word double (shell_escape ("\\\"" <> "; reboot") <> "\"")
    ≡ prepend "\\" (word bare (replace_char 34 "\\\"" "; reboot" <> "\""))
breaks_example = shell_escape_breaks "; reboot" command_trimmed

abbrev pub environment : Environment
environment = record {
  policy_url = "";
  api_token = " t1 ";
  mode = "Observe";
  event_sink = "";
  shim_dir = "";
  enforce_policy_errors = "true";
  default_dir = "/home/me/.datafog";
}

abbrev pub resolved : ShimRuntimeConfig
resolved = record {
  policy_url = "http://localhost:8080";
  api_token = "t1";
  mode = "observe";
  event_sink = "";
  shim_dir = "/home/me/.datafog";
  sensitive = false;
  enforce_policy_errors = true;
  enforce_policy_errors_set = true;
}

abbrev git_shim : ManagedShimMetadata
git_shim = record {
  command = "git";
  adapter = "git ";
  target = "/usr/bin/git";
  mode = "enforced";
  policy_url = "http://localhost:8080";
  event_sink = "";
  enforce_policy_errors = true;
}

git_lines : all is_line (script_lines "/opt/shim" git_shim) ≡ true
unfolding script_lines is_line datafog.Cli.Script.meta_lines datafog.Cli.Script.body_lines sh_quote
    replace_char shell_escape trim_space
git_lines = refl

git_short : too_long (script_lines "/opt/shim" git_shim) ≡ false
unfolding script_lines datafog.Cli.Script.meta_lines datafog.Cli.Script.body_lines sh_quote
    replace_char shell_escape trim_space
git_short = refl

metadata_example :
    read_shim_metadata (build_shim_script "/opt/shim" git_shim) ≡ some (as_read git_shim, true)
metadata_example = read_shim_metadata-build_shim_script "/opt/shim" git_shim git_lines git_short
