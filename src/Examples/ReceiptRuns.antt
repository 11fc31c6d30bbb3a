-- ===== src/Examples/ReceiptRuns.antt =====
-- internal/receipts/store.go, run. A real codec writes the whole receipt; these write what the run
-- needs of it.

use Prim.Native.String.{len, char_at}
use Prim.Native.String.len
use mathlib.Core.Path.{subst}
use datafog.Prelude.{
  ℕ, zero, suc, ◌≤◌, ◌<◌, String, Bool, true, false, not, ◌&&◌, eqb, ap, ◌≡◌, ◌≢◌, refl, sym, ◌∙◌,
  Option, none, some, List, [], ◌∷◌, ◌==◌, eq_iff, arith, if◌then◌else◌,
}
use datafog.Strings.{trim_space}
use datafog.Strings.Append.{◌<>◌}
use datafog.Models.{Receipt, Decision, ActionMeta}
use datafog.Receipts.{
  Codec, Disk, World, Result, ok, err, write_failed, sync_failed, line_too_long, lines_of,
  load_existing, must_rotate, save, get, with_id, new_receipt_store, max_receipt_line_bytes,
}
use datafog.Receipts.Keeps.{IsBounded, save-IsBounded, get-save}
use datafog.Receipts.Recovery.{
  IsCodec, IsDurable, FitsLine, IsPath, working, save-IsDurable, save_too_long,
}
use datafog.Receipts.Torn.{tearing, save_torn}
use datafog.Receipts.Restart.{SaveCall, save_all, AreSafe, reopen_after_saves}
use datafog.Examples.{sample_receipt, sample_world, read_action}

-- A codec for the receipts that are the sample but for their id, which is their line.
abbrev is_empty_list : {A : Type 0} → List A → Bool
is_empty_list [] = true
is_empty_list (x ∷ xs) = false

plain_list : {A : Type 0} (xs : List A) → is_empty_list xs ≡ true → xs ≡ []
plain_list [] h = refl
plain_list (x ∷ xs) h = cc

abbrev is_allow : Decision → Bool
is_allow d = elim d [ Decision.allow ↦ true | _ ↦ false ]

allow_only : (d : Decision) → is_allow d ≡ true → d ≡ Decision.allow
allow_only Decision.allow h = refl
allow_only Decision.deny h = cc
allow_only Decision.transform h = cc
allow_only Decision.allow_with_redaction h = cc
allow_only (Decision.other x) h = cc

abbrev is_read_action : ActionMeta → Bool
is_read_action a =
    a.type == "file.read"
    && a.tool == "fs"
    && a.resource == "notes.txt"
    && a.command == ""
    && is_empty_list a.args
    && not a.sensitive

read_action_only : (a : ActionMeta) → is_read_action a ≡ true → a ≡ read_action
read_action_only a h =
    let e1 : a.type ≡ "file.read" = ground (arith, eq_iff a.type "file.read") in
    let e2 : a.tool ≡ "fs" = ground (arith, eq_iff a.tool "fs") in
    let e3 : a.resource ≡ "notes.txt" = ground (arith, eq_iff a.resource "notes.txt") in
    let e4 : a.command ≡ "" = ground (arith, eq_iff a.command "") in
    let e5 : a.args ≡ [] = plain_list a.args (ground arith) in
    let e6 : a.sensitive ≡ false = ground arith in
    λ i. record {
      type = e1 i;
      tool = e2 i;
      resource = e3 i;
      command = e4 i;
      args = e5 i;
      sensitive = e6 i;
    }

abbrev is_plain : Receipt → Bool
is_plain r =
    eqb r.timestamp 7
    && r.policy_version == "v1"
    && r.policy_id == "p1"
    && r.request_id == ""
    && r.trace_id == ""
    && r.tenant_id == ""
    && r.actor_id == ""
    && r.session_id == ""
    && r.action_hash == ""
    && r.input_hash == ""
    && r.sanitized_summary == ""
    && r.reason == ""
    && is_allow r.decision
    && is_read_action r.action
    && is_empty_list r.matched_rules
    && is_empty_list r.findings
    && is_empty_list r.transform_plan
    && trim_space r.receipt_id == r.receipt_id
    && not (r.receipt_id == "")

eqb_eq : (a b : ℕ) → eqb a b ≡ true → a ≡ b
eqb_eq a b h = ground arith

split_and : (a b : Bool) → (a && b) ≡ true → (a ≡ true) × (b ≡ true)
split_and a b h = (ground arith, ground arith)

plain_only :
    (r : Receipt) → is_plain r ≡ true → r ≡ record sample_receipt { receipt_id = r.receipt_id }
plain_only r h =
    let (h1, _) = split_and _ _ h in
    let (h2, _) = split_and _ _ h1 in
    let (h3, plan_h) = split_and _ _ h2 in
    let (h4, findings_h) = split_and _ _ h3 in
    let (h5, rules_h) = split_and _ _ h4 in
    let (h6, action_h) = split_and _ _ h5 in
    let (h7, decision_h) = split_and _ _ h6 in
    let (h8, reason_h) = split_and _ _ h7 in
    let (h9, sanitized_summary_h) = split_and _ _ h8 in
    let (h10, input_hash_h) = split_and _ _ h9 in
    let (h11, action_hash_h) = split_and _ _ h10 in
    let (h12, session_id_h) = split_and _ _ h11 in
    let (h13, actor_id_h) = split_and _ _ h12 in
    let (h14, tenant_id_h) = split_and _ _ h13 in
    let (h15, trace_id_h) = split_and _ _ h14 in
    let (h16, request_id_h) = split_and _ _ h15 in
    let (h17, policy_h) = split_and _ _ h16 in
    let (time_h, version_h) = split_and _ _ h17 in
    let time : r.timestamp ≡ 7 = eqb_eq r.timestamp 7 time_h in
    let version = (eq_iff r.policy_version "v1").0 version_h in
    let policy = (eq_iff r.policy_id "p1").0 policy_h in
    let request_id_is = (eq_iff r.request_id "").0 request_id_h in
    let trace_id_is = (eq_iff r.trace_id "").0 trace_id_h in
    let tenant_id_is = (eq_iff r.tenant_id "").0 tenant_id_h in
    let actor_id_is = (eq_iff r.actor_id "").0 actor_id_h in
    let session_id_is = (eq_iff r.session_id "").0 session_id_h in
    let action_hash_is = (eq_iff r.action_hash "").0 action_hash_h in
    let input_hash_is = (eq_iff r.input_hash "").0 input_hash_h in
    let sanitized_summary_is = (eq_iff r.sanitized_summary "").0 sanitized_summary_h in
    let reason_is = (eq_iff r.reason "").0 reason_h in
    let decision_is = allow_only r.decision decision_h in
    let action_is = read_action_only r.action action_h in
    let rules_are = plain_list r.matched_rules rules_h in
    let findings_are = plain_list r.findings findings_h in
    let plan_is = plain_list r.transform_plan plan_h in
    λ i. record {
      receipt_id = r.receipt_id;
      timestamp = time i;
      policy_version = version i;
      policy_id = policy i;
      request_id = request_id_is i;
      trace_id = trace_id_is i;
      tenant_id = tenant_id_is i;
      actor_id = actor_id_is i;
      session_id = session_id_is i;
      action_hash = action_hash_is i;
      input_hash = input_hash_is i;
      sanitized_summary = sanitized_summary_is i;
      reason = reason_is i;
      decision = decision_is i;
      action = action_is i;
      matched_rules = rules_are i;
      findings = findings_are i;
      transform_plan = plan_is i;
    }

not_both : {b : Bool} → not b ≡ true → b ≡ true → ⊥
not_both {b} h e = ground arith

plain_id :
    (r : Receipt)
    → is_plain r ≡ true
    → (trim_space r.receipt_id ≡ r.receipt_id) × (r.receipt_id ≢ "")
plain_id r h =
    let (h1, named) = split_and _ _ h in
    let (_, trimmed) = split_and _ _ h1 in
    (
      (eq_iff (trim_space r.receipt_id) r.receipt_id).0 trimmed,
      λ e. not_both named ((eq_iff r.receipt_id "").1 e),
    )

abbrev write_plain : Bool → String → Option String
write_plain b id = if b then some id else none

abbrev id_codec : Codec
id_codec = record {
  encode = λ r. write_plain (is_plain r) r.receipt_id;
  decode = λ line. some (record sample_receipt { receipt_id = line });
}

write_plain_only :
    (b : Bool) (id line : String) → write_plain b id ≡ some line → (b ≡ true) × (id ≡ line)
write_plain_only true id line e = (refl, cc)
write_plain_only false id line e = cc

id_codec_reads_back : IsCodec id_codec
id_codec_reads_back = record {
  reads_back = λ r line e.
      let (plain, same) = write_plain_only (is_plain r) r.receipt_id line e in
      let (trimmed, named) = plain_id r plain in
      let back : trim_space line ≡ r.receipt_id = ap trim_space (sym same) ∙ trimmed in
      (
        ap (λ id. some (record sample_receipt { receipt_id = id })) back
            ∙ ap some (sym (plain_only r plain)),
        λ e. named (sym back ∙ e),
      );
}

bounded : IsBounded sample_world.store
bounded = record { within = λ h. omega arith; counted = omega arith }

bounded_example :
    IsBounded (save id_codec working "r2" "20240101" sample_receipt sample_world).1.store
bounded_example =
    save-IsBounded id_codec working "r2" "20240101" sample_receipt sample_world bounded

saved_ok : (save id_codec working "r2" "20240101" sample_receipt sample_world).0 ≡ ok sample_receipt
unfolding save trim_space
saved_ok = refl

get_example :
    (sample_receipt ≡ with_id "r2" sample_receipt)
    × (get "r1" (save id_codec working "r2" "20240101" sample_receipt sample_world).1.store
        ≡ some sample_receipt)
get_example =
    get-save id_codec working "r2" "20240101" sample_receipt sample_receipt sample_world "r1"
      saved_ok

sample_world-IsDurable : IsDurable id_codec sample_world
unfolding load_existing datafog.Receipts.load_lines
sample_world-IsDurable = record { ended = refl; bad_lines = 0; loads = refl }

sample_world-IsPath : IsPath id_codec sample_world.store.file_path
unfolding trim_space datafog.Receipts.contains_nul
sample_world-IsPath = (λ e. cc ((eq_iff sample_world.store.file_path "").1 e), refl, refl)

fits_line : FitsLine id_codec (with_id "r2" sample_receipt)
fits_line = λ line e.
    subst (λ s. len s < max_receipt_line_bytes)
      (write_plain_only (is_plain sample_receipt) "r1" line e).1 (omega arith)

save-IsDurable_example :
    IsDurable id_codec (save id_codec working "r2" "20240101" sample_receipt sample_world).1
save-IsDurable_example =
    save-IsDurable id_codec working "r2" "20240101" sample_receipt sample_world id_codec_reads_back
      fits_line tt sample_world-IsDurable (λ e. cc (e, saved_ok))

-- a line of that many letters
letters : ℕ → String
letters zero = ""
letters (suc n) = String.◌∷◌ (char_at "x" 0) (letters n)

len-letters : (n : ℕ) → len (letters n) ≡ n
unfolding letters
len-letters zero = len.nil
len-letters (suc n) = len.cons (char_at "x" 0) (letters n) ∙ omega (arith, len-letters n)

abbrev long_codec : Codec
long_codec = record {
  encode = λ r. some (letters max_receipt_line_bytes);
  decode = λ line. some sample_receipt;
}

long_codec-IsDurable : IsDurable long_codec sample_world
unfolding load_existing datafog.Receipts.load_lines
long_codec-IsDurable = record { ended = refl; bad_lines = 0; loads = refl }

long_line : max_receipt_line_bytes ≤ len (letters max_receipt_line_bytes)
long_line = omega (arith, len-letters max_receipt_line_bytes)

too_long_example :
    ((save long_codec working "r2" "20240101" sample_receipt sample_world).0
      ≡ ok (with_id "r2" sample_receipt))
    × (new_receipt_store long_codec working sample_world.store.file_path
          sample_world.store.max_entries
          (save long_codec working "r2" "20240101" sample_receipt sample_world).1.files
        ≡ err line_too_long)
too_long_example =
    save_too_long long_codec "r2" "20240101" sample_receipt sample_world
      (letters max_receipt_line_bytes) long_codec-IsDurable sample_world-IsPath refl refl long_line

-- a codec that reads one receipt only
abbrev read_first : Bool → Option Receipt
read_first b = if b then some sample_receipt else none

abbrev first_codec : Codec
first_codec = record { encode = λ r. some r.receipt_id; decode = λ line. read_first (line == "r1") }

abbrev kept_world : World
kept_world = record {
  store = record {
    file_path = "receipts.jsonl";
    receipts = ("r1", sample_receipt) ∷ [];
    max_entries = 0;
    entry_count = 1;
  };
  files = record { current = some ("r1" ∷ []); fragment = ""; archives = [] };
}

kept_world-IsDurable : IsDurable first_codec kept_world
unfolding load_existing datafog.Receipts.load_lines trim_space datafog.Prelude.insert
kept_world-IsDurable = record { ended = refl; bad_lines = 0; loads = refl }

kept_world-IsPath : IsPath first_codec kept_world.store.file_path
unfolding trim_space datafog.Receipts.contains_nul
kept_world-IsPath = (λ e. cc ((eq_iff kept_world.store.file_path "").1 e), refl, refl)

abbrev second : Receipt
second = record sample_receipt { receipt_id = "r2" }

glued_unread : first_codec.decode (trim_space ("r" <> "r2")) ≡ none
unfolding trim_space
glued_unread = refl

glued_shown : trim_space ("r" <> "r2") ≢ ""
unfolding trim_space
glued_shown e = cc ((eq_iff "rr2" "").1 e)

glued_fits : len ("r" <> "r2") < max_receipt_line_bytes
glued_fits = omega arith

torn_example :
    let before = save first_codec (tearing first_codec "r") "r9" "20240101" second kept_world in
    let after = save first_codec working "r9" "20240101" second before.1 in
    (before.0 ≡ err write_failed)
    × (after.0 ≡ ok (with_id "r9" second))
    × ((reopened : World) × (new_receipt_store first_codec working "receipts.jsonl" 0 after.1.files
          ≡ ok reopened)
        × (reopened.store ≡ kept_world.store))
torn_example =
    save_torn first_codec "r" "r9" "20240101" second second kept_world "r2" "r2"
      kept_world-IsDurable kept_world-IsPath refl refl refl refl glued_unread glued_shown glued_fits

abbrev opened : World
opened = record sample_world { files = record (sample_world.files) { current = some [] } }

opens_sample : new_receipt_store id_codec working "receipts.jsonl" 2 sample_world.files ≡ ok opened
unfolding new_receipt_store trim_space load_existing datafog.Receipts.contains_nul
    datafog.Receipts.load_lines
opens_sample = refl

abbrev one_save : SaveCall
one_save = record { disk = working; id = "r2"; stamp = "20240101"; receipt = sample_receipt }

ok_unsynced : (r : Receipt) → ok r ≢ err sync_failed
ok_unsynced r e = cc

-- the third rotates the file
abbrev three_saves : List SaveCall
three_saves = one_save ∷ one_save ∷ one_save ∷ []

three_saves-AreSafe : AreSafe id_codec three_saves opened
unfolding AreSafe save trim_space datafog.Receipts.rotate
three_saves-AreSafe = (
  fits_line,
  tt,
  ok_unsynced sample_receipt,
  (fits_line, tt, ok_unsynced sample_receipt, (fits_line, tt, ok_unsynced sample_receipt, tt)),
)

restart_example :
    (reopened : World) × (new_receipt_store id_codec working "receipts.jsonl" 2
        (save_all id_codec three_saves opened).files
      ≡ ok reopened)
    × (reopened.store ≡ (save_all id_codec three_saves opened).store)
restart_example =
    reopen_after_saves id_codec "receipts.jsonl" 2 working sample_world.files opened three_saves
      id_codec_reads_back sample_world-IsPath refl refl refl opens_sample three_saves-AreSafe
