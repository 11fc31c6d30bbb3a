-- ===== src/Server/Middleware.antt =====
-- internal/server/server.go: `wrapMiddleware` with the test of the token, the rate limit and the
-- metrics. The mux and what the handler for a request does are arguments. Of the answer the status is
-- kept: what the recorder of `responseStatusWriter` holds, and what the client gets, which is the first
-- status written, as net/http documents.
use Prim.Native.Char.{code}
use datafog.Prelude.{
  ℕ, String, Bool, true, false, not, ◌&&◌, Option, none, some, List, [], ◌∷◌, ◌==◌, eqb,
  if◌then◌else◌,
}
use datafog.Strings.{Unicode, is_space, trim_space, equal_fold, has_prefix}
use datafog.Server.Limiter.{Float64, TokenBucket, allow}
use datafog.Server.Metrics.{Completed, Metrics, record_request_metrics}

-- a word, if any, in front of the others
abbrev pub close_word : String → List String → List String
close_word String.[] words = words
close_word (String.◌∷◌ c s) words = String.◌∷◌ c s ∷ words

-- the word that a text begins with, and the others
unfoldable pub words_of : String → String × List String
words_of String.[] = (String.[], [])
words_of (String.◌∷◌ c s) =
    let (word, words) = words_of s in
    if is_space c then (String.[], close_word word words) else (String.◌∷◌ c word, words)

-- strings.Fields
unfoldable pub fields : String → List String
unfolding words_of
fields s = close_word (words_of s).0 (words_of s).1

-- strings.HasSuffix(s, "/")
unfoldable pub ends_with_slash : String → Bool
ends_with_slash String.[] = false
ends_with_slash (String.◌∷◌ c String.[]) = eqb (code c) 47
ends_with_slash (String.◌∷◌ c (String.◌∷◌ d s)) = ends_with_slash (String.◌∷◌ d s)

-- a request, and the mux's pattern for it, which is empty if there is none
pub record Incoming : Type 0 where
  pub method : String
  pub path : String
  pub pattern : String
  pub authorization : String
  pub api_key : String

unfoldable pub canonicalized_route : String → String → String
unfolding ends_with_slash has_prefix
canonicalized_route pattern path =
    if ends_with_slash pattern && has_prefix path "/v1/receipts/"
    then "/v1/receipts/{id}"
    else pattern

module _ ⦃u : Unicode⦄ where
  abbrev bearer : List String → String
  bearer (scheme ∷ token ∷ []) = if equal_fold scheme "Bearer" then token else ""
  bearer [] = ""
  bearer (a ∷ []) = ""
  bearer (a ∷ b ∷ c ∷ more) = ""

  unfoldable pub authorization_token : String → String
  unfolding fields
  authorization_token value = bearer (fields (trim_space value))

  -- subtle.ConstantTimeCompare of two texts
  abbrev constant_time_token_equal : String → String → Bool
  constant_time_token_equal provided expected = provided == expected

  unfoldable pub authorized : String → Incoming → Bool
  unfolding authorization_token
  authorized api_token r =
      let token = authorization_token r.authorization in
      let key = trim_space r.api_key in
      if api_token == ""
      then true
      else if not (token == "") && constant_time_token_equal token api_token
      then true
      else if not (key == "") && constant_time_token_equal key api_token
      then true
      else false

-- the status that is recorded, 0 if none was, and the one that went out
pub record StatusWriter : Type 0 where
  pub status : ℕ
  pub sent : Option ℕ

abbrev pub nothing_written : StatusWriter
nothing_written = record { status = 0; sent = none }

abbrev first_of : Option ℕ → ℕ → Option ℕ
first_of none code = some code
first_of (some sent) code = some sent

unfoldable pub write_header : ℕ → StatusWriter → StatusWriter
write_header code w = record { status = code; sent = first_of w.sent code }

-- What a handler does: the status that it writes, if any, whether it panics, and what it leaves.
pub record Served (S : Type 0) : Type 0 where
  pub written : Option ℕ
  pub panicked : Bool
  pub state : S

-- the server: what its handlers share, the limiter and the metrics
pub record Front (F S : Type 0) : Type 0 where
  pub state : S
  pub limiter : Option (TokenBucket F)
  pub metrics : Metrics

-- what a request has come to before the deferred function runs
pub record Handled (F S : Type 0) : Type 0 where
  pub writer : StatusWriter
  pub panicked : Bool
  pub front : Front F S

abbrev pub write_if : Option ℕ → StatusWriter → StatusWriter
write_if none w = w
write_if (some status) w = write_header status w

-- the recovery from a panic and the status of a handler that wrote none
unfoldable pub settle : Bool → StatusWriter → StatusWriter
settle panicked w =
    let recovered = if panicked then write_header 500 w else w in
    if eqb recovered.status 0 then record recovered { status = 200 } else recovered

abbrev pub route_of : Incoming → String
route_of r = if r.pattern == "" then "/_not_found" else canonicalized_route r.pattern r.path

abbrev pub client_status : Option ℕ → ℕ
client_status none = 200
client_status (some status) = status

module _ {F S : Type 0} where
  abbrev pub refuse : ℕ → Front F S → Handled F S
  refuse code front = record {
    writer = write_header code nothing_written;
    panicked = false;
    front = front;
  }

  abbrev pub run_handler : Served S → Front F S → Handled F S
  run_handler served front = record {
    writer = write_if served.written nothing_written;
    panicked = served.panicked;
    front = record front { state = served.state };
  }

  -- the guards and the handler
  unfoldable pub serve_http :
      ⦃u : Unicode⦄
      → ⦃float : Float64 F⦄ → String
      → ℕ
      → (S → Served S)
      → Incoming
      → Front F S
      → Handled F S
  serve_http ⦃u⦄ ⦃float⦄ api_token now handle r front =
      let answer = allow now front.limiter in
      let limited = record front { limiter = answer.1 } in
      if not (authorized api_token r)
      then refuse 401 front
      else if not answer.0
      then refuse 429 limited
      else if r.pattern == ""
      then refuse 404 limited
      else run_handler (handle front.state) limited

  -- the deferred function
  unfoldable pub complete : ℕ → Incoming → Handled F S → ℕ × Front F S
  unfolding settle
  complete latency r h =
      let w = settle h.panicked h.writer in
      let done : Completed = record {
        method = r.method;
        route = route_of r;
        status = w.status;
        latency_ns = latency;
      } in
      (
        client_status w.sent,
        record h.front { metrics = record_request_metrics done h.front.metrics },
      )

  -- the client's status and the server afterwards
  unfoldable pub wrap_middleware :
      ⦃u : Unicode⦄
      → ⦃float : Float64 F⦄ → String
      → ℕ
      → ℕ
      → (S → Served S)
      → Incoming
      → Front F S
      → ℕ × Front F S
  unfolding serve_http complete
  wrap_middleware ⦃u⦄ ⦃float⦄ api_token now latency handle r front =
      if r.method == "OPTIONS"
      then (204, front)
      else complete latency r (serve_http api_token now handle r front)
