-- ===== src/Server/Sandbox.antt =====
-- Which files the demo endpoints touch.
use datafog.Prelude.{
  ℕ, String, Bool, true, false, not, ◌||◌, ◌≡◌, ◌≢◌, ◌⊎◌, refl, ap, sym, ◌∙◌, Option, none, some,
  List, [], ◌∷◌, ◌==◌, eq_iff, ◌++◌, all, arith, is_empty, if◌then◌else◌, Bool-cases, Option-cases,
  inl, inr,
}
use datafog.Strings.{Unicode, Bytes}
use datafog.Strings.Append.{◌<>◌}
use datafog.Strings.Path.{base, clean, is_rooted, contains_slash, join_path}
use datafog.Strings.Path.Joined.{base-contains_slash, IsName}
use datafog.Strings.Path.Upward.{place_of, join_path-place}
use datafog.Models.{ScanFinding, DecideRequest, DecideResponse}
use datafog.Transform.Replacement.{Digest}
use datafog.Shim.Gate.{
  Gate, Effect, recorded, ran, read, wrote, Reader, Writer, should_allow,
  should_block_on_policy_error, enforce, execute_request,
}
use datafog.Shim.Actions.{read_file, write_file, write_checked}
use datafog.Shim.Enforcement.{redact_read_trace}
use datafog.Server.Demo.{
  DemoHandler, is_error, DemoWriteRequest, full_path, handle_write_file, write_request,
  handle_read_file, read_request, handle_seed, seed_request, seeded,
}

abbrev is_path : String → Effect → Bool
is_path path (read p) = p == path
is_path path (wrote p bytes perm) = p == path
is_path path (recorded e) = true
is_path path (ran c args) = false

-- No command is run, and every file that is read or written is the one at the path.
abbrev pub touches_only : String → List Effect → Bool
touches_only path effects = all (is_path path) effects

enforce_touches :
    (path : String) (now : ℕ) (g : Gate) (req : DecideRequest) (x : Effect)
    (result : Option Bytes × Option String) (answer : DecideResponse × Option String)
    → is_path path x ≡ true
    → touches_only path (enforce now g req x result answer).trace ≡ true
unfolding enforce
enforce_touches path now g req x (o, err) (r, some e) k =
    elim (Bool-cases (should_block_on_policy_error g)) [
      | inl b ↦ rw b refl
      | inr b ↦ rw (b, k) refl
    ]
enforce_touches path now g req x (o, err) (r, none) k =
    elim (Bool-cases (should_allow g r.decision)) [ inl b ↦ rw (b, k) refl | inr b ↦ rw b refl ]

all-append {ℓ} :
    {A : Type ℓ} (test : A → Bool) (xs ys : List A)
    → all test xs ≡ true
    → all test ys ≡ true
    → all test (xs ++ ys) ≡ true
all-append test [] ys h k = k
all-append test (x ∷ xs) ys h k = ground (arith, h, all-append test xs ys (ground (arith, h)) k)

read_back_touches :
    (path : String) (b : Bool) → touches_only path (if b then [] else read path ∷ []) ≡ true
read_back_touches path true = refl
read_back_touches path false = rw ((eq_iff path path).1 refl) refl

module _ ⦃u : Unicode⦄ ⦃d : Digest⦄ (scan : Bytes → List ScanFinding) where
  write_checked_touches :
      (now : ℕ) (g : Gate) (write : Writer) (req : DecideRequest) (path : String) (bytes : Bytes)
      (perm : ℕ) (findings : List ScanFinding) (answer : DecideResponse × Option String)
      → touches_only path (write_checked scan now g write req path bytes perm findings answer).trace
        ≡ true
  unfolding write_checked
  write_checked_touches now g write req path bytes perm findings (r, some e) =
      elim (Bool-cases (should_block_on_policy_error g)) [
        | inl b ↦ rw b refl
        | inr b ↦ rw (b, (eq_iff path path).1 refl) refl
      ]
  write_checked_touches now g write req path bytes perm findings (r, none) =
      elim (Bool-cases (should_allow g r.decision)) [
        | inl b ↦ rw (b, (eq_iff path path).1 refl) refl
        | inr b ↦ rw b refl
      ]

  write_file_touches :
      (now : ℕ) (g : Gate) (path : String) (bytes : Bytes) (perm : ℕ) (text : Bytes)
      (findings : List ScanFinding) (sensitive : Bool)
      → touches_only path (write_file scan now g path bytes perm text findings sensitive).trace
        ≡ true
  unfolding write_file
  write_file_touches now g path bytes perm text findings sensitive =
      elim (Option-cases (g.writer)) [
        | inl e ↦ rw e refl
        | inr (write, e) ↦ rw e (write_checked_touches now _ write _ path bytes perm findings _)
      ]

  read_file_touches :
      (now : ℕ) (g : Gate) (path : String) (text : Bytes) (findings : List ScanFinding)
      (sensitive : Bool)
      → touches_only path (read_file scan now g path text findings sensitive).trace ≡ true
  unfolding read_file execute_request
  read_file_touches now g path text findings sensitive = elim (Option-cases (g.reader)) [
    | inl e ↦ rw e refl
    | inr (reader, e) ↦
        rw (e, redact_read_trace _ _)
          (enforce_touches path now _ _ (read path) _ _ ((eq_iff path path).1 refl))
  ]

  module _ (bytes_of : String → Bytes) (now : ℕ) (h : DemoHandler) where
    handle_write_file_touches :
        (read_back : Reader) (method : String) (req : DemoWriteRequest)
        → touches_only
            (full_path h req.filename)
            (handle_write_file scan bytes_of now h read_back method (some req)).trace
          ≡ true
    unfolding handle_write_file write_request
    handle_write_file_touches read_back method req = elim (Bool-cases (method == "POST")) [
      | inr m ↦ rw m refl
      | inl m ↦ elim (Bool-cases (req.filename == "")) [
        | inl e ↦ rw (m, e) refl
        | inr e ↦
            let content = bytes_of req.content in
            let path = full_path h req.filename in
            let o =
              write_file scan now h.gate path content 384 content (scan content)
                (not (is_empty (scan content))) in
            rw (m, e)
              (all-append (is_path path) o.trace (if is_error o.error then [] else read path ∷ [])
                (write_file_touches now h.gate path content 384 content (scan content)
                  (not (is_empty (scan content))))
                (read_back_touches path (is_error o.error)))
      ]
    ]

    handle_read_file_touches :
        (method filename : String)
        → touches_only
            (full_path h filename)
            (handle_read_file scan bytes_of now h method (some filename)).trace
          ≡ true
    unfolding handle_read_file read_request
    handle_read_file_touches method filename = elim (Bool-cases (method == "POST")) [
      | inr m ↦ rw m refl
      | inl m ↦ elim (Bool-cases (filename == "")) [
        | inl e ↦ rw (m, e) refl
        | inr e ↦ rw (m, e) (read_file_touches now h.gate (full_path h filename) [] [] false)
      ]
    ]

    seeded_touches :
        (filename : String) (content : Bytes) (e : Option String)
        → touches_only (full_path h filename) (seeded scan bytes_of now h filename content e).trace
          ≡ true
    unfolding seeded
    seeded_touches filename content none =
        rw ((eq_iff (full_path h filename) (full_path h filename)).1 refl) refl
    seeded_touches filename content (some e) =
        rw ((eq_iff (full_path h filename) (full_path h filename)).1 refl) refl

    handle_seed_touches :
        (write : Writer) (method : String) (req : DemoWriteRequest)
        → touches_only
            (full_path h req.filename)
            (handle_seed scan bytes_of now h write method (some req)).trace
          ≡ true
    unfolding handle_seed seed_request
    handle_seed_touches write method req = elim (Bool-cases (method == "POST")) [
      | inr m ↦ rw m refl
      | inl m ↦ elim (Bool-cases (req.filename == "" || req.content == "")) [
        | inl e ↦ rw (m, e) refl
        | inr e ↦
            rw (m, e)
              (seeded_touches req.filename (bytes_of req.content)
                (write (full_path h req.filename) (bytes_of req.content) 384))
      ]
    ]

    -- Whatever filename a request names, the endpoints for writing, reading and seeding a file run no
    -- command, and the only path that they touch is that which the name's last part has in the sandbox:
    -- an entry of the sandbox with this part, which holds no slash; the sandbox itself if the part is
    -- empty, a dot or a slash; and the directory of the sandbox if it is two dots. The sandbox is an entry of
    -- a clean directory from the root, other than the root.
    pub demo_stays_in_sandbox :
        (read_back : Reader) (write : Writer) (method : String) (req : DemoWriteRequest)
        (dir name : String)
        → h.sandbox_dir ≡ dir <> ("/" <> name)
        → clean dir ≡ dir
        → is_rooted dir ≡ true
        → dir ≢ "/"
        → IsName name
        → let place = place_of dir name (base req.filename) in
          ((base req.filename ≡ "/") ⊎ (contains_slash (base req.filename) ≡ false))
          × (touches_only place
                (handle_write_file scan bytes_of now h read_back method (some req)).trace
              ≡ true)
          × (touches_only place
                (handle_read_file scan bytes_of now h method (some req.filename)).trace
              ≡ true)
          × (touches_only place (handle_seed scan bytes_of now h write method (some req)).trace
              ≡ true)
    unfolding full_path
    demo_stays_in_sandbox read_back write method req dir name at cleaned rooted below is =
        let flat = base-contains_slash req.filename in
        let same : full_path h req.filename ≡ place_of dir name (base req.filename) =
          ap (λ d. join_path d (base req.filename)) at
          ∙ join_path-place dir name cleaned rooted below is (base req.filename) flat in
        (
          elim (Bool-cases (base req.filename == "/")) [
            | inl s ↦ inl ((eq_iff (base req.filename) "/").0 s)
            | inr s ↦ inr (flat s)
          ],
          ap
                (λ p.
                  touches_only p
                    (handle_write_file scan bytes_of now h read_back method (some req)).trace)
                (sym same)
              ∙ handle_write_file_touches read_back method req,
          ap
                (λ p.
                  touches_only p
                    (handle_read_file scan bytes_of now h method (some req.filename)).trace)
                (sym same)
              ∙ handle_read_file_touches method req.filename,
          ap (λ p. touches_only p (handle_seed scan bytes_of now h write method (some req)).trace)
                (sym same)
              ∙ handle_seed_touches write method req,
        )
