-- ===== src/Api.antt =====
-- cmd/datafog-api/main.go: the settings of the server process, from the environment and the arguments, and
-- the order in which it starts. `strconv.Atoi` and `time.ParseDuration` are parameters, a duration being
-- its nanoseconds; a variable that is not set is the empty text. The profiler, the listening and the
-- signals are left out.
pub mod Start
use datafog.Prelude.{
  ℕ, ◌*◌, String, Bool, true, false, not, ◌||◌, ◌≡◌, refl, Option, none, some, List, [], ◌∷◌, ◌==◌,
  if◌then◌else◌, Bool-cases, inl, inr,
}
use datafog.Prelude.Int.{ℤ, pos, ltb_ℤ}
use datafog.Strings.{Unicode, trim_space, to_lower}
use datafog.Strings.Append.{◌<>◌}
use datafog.Shim.Http.{HttpDecisionClient, Outgoing, Answer, new_http_decision_client}

pub record Process : Type 0 where
  pub variable : String → String
  pub args : List String
  pub atoi : String → Option ℤ
  pub parse_duration : String → Option ℤ

pub record Settings : Type 0 where
  pub policy_path : String
  pub receipt_path : String
  pub api_token : String
  pub addr : String
  pub rate_limit_rps : ℤ
  pub shutdown_timeout : ℤ
  pub enable_demo : Bool
  pub events_path : String
  pub demo_html : String
  pub read_timeout : ℤ
  pub read_header_timeout : ℤ
  pub write_timeout : ℤ
  pub idle_timeout : ℤ

abbrev pub second : ℕ
second = 1000000000

unfoldable pub getenv : Process → String → String → String
getenv p key fallback = if p.variable key == "" then fallback else p.variable key

-- a parsed duration, unless it is not positive
unfoldable pub positive_or : ℤ → Option ℤ → ℤ
positive_or fallback none = fallback
positive_or fallback (some n) = if ltb_ℤ (pos 0) n then n else fallback

unfoldable pub getenv_duration : Process → String → ℤ → ℤ
unfolding positive_or
getenv_duration p key fallback =
    if p.variable key == ""
    then fallback
    else positive_or fallback (p.parse_duration (p.variable key))

-- a parsed integer, unless it is negative
unfoldable pub natural_or : ℤ → Option ℤ → ℤ
natural_or fallback none = fallback
natural_or fallback (some n) = if ltb_ℤ n (pos 0) then fallback else n

unfoldable pub getenv_int : Process → String → ℤ → ℤ
unfolding natural_or
getenv_int p key fallback =
    if trim_space (p.variable key) == ""
    then fallback
    else natural_or fallback (p.atoi (trim_space (p.variable key)))

unfoldable pub has_flag : List String → String → Bool
has_flag [] flag = false
has_flag (arg ∷ args) flag = let rest = has_flag args flag in if arg == flag then true else rest

unfoldable pub getenv_bool : ⦃u : Unicode⦄ → Process → String → Bool → Bool
getenv_bool p key fallback =
    let value = trim_space (to_lower (p.variable key)) in
    if value == "1"
      || value == "true"
      || value == "t"
      || value == "yes"
      || value == "y"
      || value == "on"
    then true
    else if value == "0"
        || value == "false"
        || value == "f"
        || value == "no"
        || value == "n"
        || value == "off"
    then false
    else fallback

unfoldable pub settings : Process → Settings
unfolding getenv getenv_int getenv_duration has_flag
settings p = record {
  policy_path = getenv p "DATAFOG_POLICY_PATH" "config/policy.json";
  receipt_path = getenv p "DATAFOG_RECEIPT_PATH" "datafog_receipts.jsonl";
  api_token = getenv p "DATAFOG_API_TOKEN" "";
  addr = getenv p "DATAFOG_ADDR" ":8080";
  rate_limit_rps = getenv_int p "DATAFOG_RATE_LIMIT_RPS" (pos 0);
  shutdown_timeout = getenv_duration p "DATAFOG_SHUTDOWN_TIMEOUT" (pos (10 * second));
  enable_demo = not (getenv p "DATAFOG_ENABLE_DEMO" "" == "") || has_flag p.args "--enable-demo";
  events_path = getenv p "DATAFOG_EVENTS_PATH" "";
  demo_html = getenv p "DATAFOG_DEMO_HTML" "docs/demo.html";
  read_timeout = getenv_duration p "DATAFOG_READ_TIMEOUT" (pos (5 * second));
  read_header_timeout = getenv_duration p "DATAFOG_READ_HEADER_TIMEOUT" (pos (2 * second));
  write_timeout = getenv_duration p "DATAFOG_WRITE_TIMEOUT" (pos (10 * second));
  idle_timeout = getenv_duration p "DATAFOG_IDLE_TIMEOUT" (pos (30 * second));
}

-- the client of the demo's gate
unfoldable pub demo_client : Settings → (Outgoing → Answer) → HttpDecisionClient
demo_client s exchange =
    new_http_decision_client ("http://127.0.0.1" <> s.addr) s.api_token exchange

abbrev pub IsPositive : ℤ → Type 0
IsPositive n = ltb_ℤ (pos 0) n ≡ true

either-IsPositive :
    (b : Bool) (x y : ℤ) → IsPositive x → IsPositive y → IsPositive (if b then x else y)
either-IsPositive true x y h k = h
either-IsPositive false x y h k = k

positive_or-IsPositive :
    (fallback : ℤ) (o : Option ℤ) → IsPositive fallback → IsPositive (positive_or fallback o)
unfolding positive_or
positive_or-IsPositive fallback none h = h
positive_or-IsPositive fallback (some n) h = elim (Bool-cases (ltb_ℤ (pos 0) n)) [
  | inl e ↦ rw e e
  | inr e ↦ rw e h
]

getenv_duration-IsPositive :
    (p : Process) (key : String) (fallback : ℤ)
    → IsPositive fallback
    → IsPositive (getenv_duration p key fallback)
unfolding getenv_duration
getenv_duration-IsPositive p key fallback h =
    either-IsPositive (p.variable key == "") _ _ h
      (positive_or-IsPositive fallback (p.parse_duration (p.variable key)) h)

natural_or_natural : (o : Option ℤ) → ltb_ℤ (natural_or (pos 0) o) (pos 0) ≡ false
unfolding natural_or
natural_or_natural none = refl
natural_or_natural (some n) = elim (Bool-cases (ltb_ℤ n (pos 0))) [
  | inl e ↦ rw e refl
  | inr e ↦ rw e e
]

getenv_int_natural : (p : Process) (key : String) → ltb_ℤ (getenv_int p key (pos 0)) (pos 0) ≡ false
unfolding getenv_int
getenv_int_natural p key = elim (Bool-cases (trim_space (p.variable key) == "")) [
  | inl e ↦ rw e refl
  | inr e ↦ rw e (natural_or_natural (p.atoi (trim_space (p.variable key))))
]

-- Whatever the environment holds, the rate limit is not negative and every timeout is positive, so that
-- none of them is switched off by a value that does not parse.
settings_bounded :
    (p : Process)
    → (ltb_ℤ (settings p).rate_limit_rps (pos 0) ≡ false)
      × IsPositive (settings p).shutdown_timeout
      × IsPositive (settings p).read_timeout
      × IsPositive (settings p).read_header_timeout
      × IsPositive (settings p).write_timeout
      × IsPositive (settings p).idle_timeout
unfolding settings
settings_bounded p = (
  getenv_int_natural p "DATAFOG_RATE_LIMIT_RPS",
  getenv_duration-IsPositive p "DATAFOG_SHUTDOWN_TIMEOUT" (pos (10 * second)) refl,
  getenv_duration-IsPositive p "DATAFOG_READ_TIMEOUT" (pos (5 * second)) refl,
  getenv_duration-IsPositive p "DATAFOG_READ_HEADER_TIMEOUT" (pos (2 * second)) refl,
  getenv_duration-IsPositive p "DATAFOG_WRITE_TIMEOUT" (pos (10 * second)) refl,
  getenv_duration-IsPositive p "DATAFOG_IDLE_TIMEOUT" (pos (30 * second)) refl,
)
