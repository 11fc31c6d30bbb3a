-- ===== src/Receipts.antt =====
-- internal/receipts/store.go: receipts in memory and in an append-only file. The mutex makes each
-- method one step. Random identifiers and times are arguments, the file system answers through `Disk`,
-- and a receipt becomes a line of text by a `Codec`.
pub mod Keeps
pub mod Recovery
pub mod Restart
pub mod Torn
use Prim.Native.Char.{Char, code}
use Prim.Native.String
use Prim.Native.String.{len}
use datafog.Prelude.{
  ℕ, ◌+◌, ◌*◌, String, Bool, true, false, not, ◌&&◌, ◌||◌, Option, none, some, List, [], ◌∷◌, ◌++◌,
  ◌==◌, ltb, leb, eqb, is_empty, length, Dict, lookup, insert, if◌then◌else◌, ◌≡◌, ◌≢◌, ◌<◌,
}
use datafog.Strings.{trim_space}
use datafog.Strings.Append.{◌<>◌}
use datafog.Models.{Receipt, DecideRequest, Decision, Policy}
use datafog.Policy.Evaluate.{DecisionResult}

-- `json.Marshal` and `json.Unmarshal` of a receipt, which stands on one line.
pub record Codec : Type 0 where
  pub encode : Receipt → Option String
  pub decode : String → Option Receipt

-- the receipts file as its lines, `none` where there is none, with the text behind the last end of a
-- line, and the lines of the archives by their names
pub record Files : Type 0 where
  pub current : Option (List String)
  pub fragment : String
  pub archives : Dict (List String)

-- a write of a line: it succeeds, or fails and leaves this part of the line, which may be empty
pub data Write : Type 0 where
  whole : Write
  torn : String → Write

-- What the system answers during one call: whether the directory is made, the rename, the opening,
-- the write and the sync succeed.
pub record Disk : Type 0 where
  pub mkdirs : Bool
  pub renames : Bool
  pub opens : Bool
  pub write : Write
  pub syncs : Bool

pub data StoreError : Type 0 where
  invalid_path mkdir_failed rotation_failed encode_failed open_failed write_failed : StoreError
  sync_failed line_too_long no_valid_records : StoreError

pub data Result {ℓ} (A : Type ℓ) : Type ℓ where
  ok : A → Result A
  err : StoreError → Result A

pub record ReceiptStore : Type 0 where
  pub file_path : String
  pub receipts : Dict Receipt
  pub max_entries : ℕ
  pub entry_count : ℕ

-- the store and the files that it writes
pub record World : Type 0 where
  pub store : ReceiptStore
  pub files : Files

abbrev pub max_receipt_line_bytes : ℕ
max_receipt_line_bytes = 1024 * 1024

-- `NewReceipt`; `id` is from `newID`, `now` from the clock
unfoldable pub new_receipt :
    String → ℕ → DecideRequest → Decision → DecisionResult → Policy → Receipt
new_receipt id now req decision result policy_meta = record {
  receipt_id = id;
  timestamp = now;
  request_id = req.request_id;
  trace_id = req.trace_id;
  tenant_id = req.tenant_id;
  actor_id = req.actor_id;
  session_id = req.session_id;
  policy_version = policy_meta.policy_version;
  policy_id = policy_meta.policy_id;
  action_hash = "";
  input_hash = "";
  sanitized_summary = "";
  decision = decision;
  action = req.action;
  matched_rules = result.matched_rules;
  findings = req.findings;
  transform_plan = result.transform_plan;
  reason = result.reason;
}

abbrev pub lines_of : Option (List String) → List String
lines_of none = []
lines_of (some lines) = lines

-- lines and the last one, which has no end, if there is one
abbrev pub with_fragment : String → List String → List String
with_fragment String.[] lines = lines
with_fragment (String.◌∷◌ c s) lines = lines ++ String.◌∷◌ c s ∷ []

-- the file as a scanner of lines reads it
abbrev pub file_lines : Files → List String
file_lines files = with_fragment files.fragment (lines_of files.current)

-- the rename, which replaces an archive of the same second
unfoldable pub rotate_file :
    Disk → String → Option (List String) → World → Result (Unit {0}) × World
rotate_file disk stamp none w =
    (ok tt, record w { store = record (w.store) { receipts = []; entry_count = 0 } })
rotate_file disk stamp (some lines) w =
    let archive = String.◌++◌ w.store.file_path (String.◌++◌ "." stamp) in
    if disk.renames
    then (
      ok tt,
      record {
        store = record (w.store) { receipts = []; entry_count = 0 };
        files = record {
          current = none;
          fragment = "";
          archives = insert archive (with_fragment w.files.fragment lines) w.files.archives;
        };
      },
    )
    else (err rotation_failed, w)

-- `rotateLocked`
unfoldable pub rotate : Disk → String → World → Result (Unit {0}) × World
unfolding rotate_file
rotate disk stamp w = rotate_file disk stamp w.files.current w

-- the file after a write at its end, where the opening has made one
abbrev pub after_write : Write → String → Files → Files
after_write whole line files = record files {
  current = some (lines_of files.current ++ (files.fragment <> line) ∷ []);
  fragment = "";
}
after_write (torn part) line files = record files {
  current = some (lines_of files.current);
  fragment = files.fragment <> part;
}

abbrev pub is_whole : Write → Bool
is_whole whole = true
is_whole (torn part) = false

-- what stands behind the rotation in `Save`, on the encoded receipt
unfoldable pub append_line : Disk → Receipt → Option String → World → Result Receipt × World
append_line disk receipt none w = (err encode_failed, w)
append_line disk receipt (some line) w =
    let written = record w { files = after_write disk.write line w.files } in
    if not disk.opens
    then (err open_failed, w)
    else if not (is_whole disk.write)
    then (err write_failed, written)
    else if not disk.syncs
    then (err sync_failed, written)
    else (
      ok receipt,
      record written {
        store = record (w.store) {
          receipts = insert receipt.receipt_id receipt w.store.receipts;
          entry_count = w.store.entry_count + 1;
        };
      },
    )

-- the receipt as it is saved
abbrev pub with_id : String → Receipt → Receipt
with_id id receipt =
    if receipt.receipt_id == "" then record receipt { receipt_id = id } else receipt

abbrev pub must_rotate : ReceiptStore → Bool
must_rotate s = ltb 0 s.max_entries && leb s.max_entries s.entry_count

unfoldable pub after_rotation :
    Codec → Disk → Receipt → Result (Unit {0}) × World → Result Receipt × World
after_rotation codec disk receipt (err e, w) = (err rotation_failed, w)
after_rotation codec disk receipt (ok _, w) = append_line disk receipt (codec.encode receipt) w

-- `Save`; `id` is from `newID` and `stamp` the time in seconds, where they are needed
unfoldable pub save : Codec → Disk → String → String → Receipt → World → Result Receipt × World
unfolding append_line after_rotation
save codec disk id stamp receipt w =
    let saved = with_id id receipt in
    after_rotation codec disk saved
      (if must_rotate w.store then rotate disk stamp w else (ok tt, w))

-- `Get`
unfoldable pub get : String → ReceiptStore → Option Receipt
get id s = lookup id s.receipts

-- The variables of the loop of `loadExistingReceipts`.
pub record Loaded : Type 0 where
  pub receipts : Dict Receipt
  pub entry_count : ℕ
  pub bad_lines : ℕ

abbrev pub take_decoded : Option Receipt → Loaded → Loaded
take_decoded none l = record l { bad_lines = l.bad_lines + 1 }
take_decoded (some r) l = record l {
  receipts = insert r.receipt_id r l.receipts;
  entry_count = l.entry_count + 1;
}

-- one line; the scanner stops where a line and its end do not fit into its buffer
unfoldable pub load_line : Codec → String → Loaded → Loaded
load_line codec raw l =
    let line = trim_space raw in if line == "" then l else take_decoded (codec.decode line) l

unfoldable pub load_lines : Codec → List String → Loaded → Result Loaded
unfolding load_line
load_lines codec [] l = ok l
load_lines codec (raw ∷ rest) l =
    let more = load_lines codec rest (load_line codec raw l) in
    if leb max_receipt_line_bytes (len raw) then err line_too_long else more

abbrev pub nothing_loaded : Loaded
nothing_loaded = record { receipts = []; entry_count = 0; bad_lines = 0 }

-- `loadExistingReceipts` on the lines of the file
abbrev pub check_loaded : Result Loaded → Result Loaded
check_loaded (err e) = err e
check_loaded (ok l) =
    if ltb 0 l.bad_lines && is_empty l.receipts then err no_valid_records else ok l

unfoldable pub load_existing : Codec → List String → Result Loaded
load_existing codec lines = check_loaded (load_lines codec lines nothing_loaded)

unfoldable pub contains_nul : String → Bool
contains_nul String.[] = false
contains_nul (String.◌∷◌ c s) = eqb (code c) 0 || contains_nul s

abbrev pub open_store : String → ℕ → Files → Result Loaded → Result World
open_store path max_entries files (err e) = err e
open_store path max_entries files (ok l) = ok (record {
  store = record {
    file_path = path;
    receipts = l.receipts;
    max_entries = max_entries;
    entry_count = l.entry_count;
  };
  files = files;
})

-- `NewReceiptStore`, with the limit that its option sets
unfoldable pub new_receipt_store : Codec → Disk → String → ℕ → Files → Result World
unfolding contains_nul
new_receipt_store codec disk file_path max_entries files =
    let path = trim_space (if file_path == "" then "datafog_receipts.jsonl" else file_path) in
    if contains_nul path
    then err invalid_path
    else if not disk.mkdirs
    then err mkdir_failed
    else if not disk.opens
    then err open_failed
    else open_store path max_entries (record files { current = some (lines_of files.current) })
        (load_existing codec (file_lines files))
