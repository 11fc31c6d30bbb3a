-- ===== src/Receipts/Recovery.antt =====
-- What a restart finds in the receipts file.
use Prim.Native.String.{len}
use datafog.Prelude.{
  ◌⊎◌, ◌∙◌, ◌==◌, ℕ, ◌+◌, ◌<◌, ◌≤◌, String, Bool, Bool-cases, true, false, ◌≡◌, ◌≢◌, refl, ap, inl,
  inr, Option, none, some, List, [], ◌∷◌, ◌++◌, arith, eq_iff, leb, is_empty, Dict, insert,
  if◌then◌else◌,
}
use datafog.Strings.{trim_space}
use datafog.Strings.Append.{append-nil}
use datafog.Models.{Receipt}
use datafog.Receipts.{
  Codec, Disk, Write, whole, torn, World, Files, open_store, after_write, file_lines, Result, ok,
  err, sync_failed, line_too_long, Loaded, nothing_loaded, lines_of, load_line, load_lines,
  load_existing, max_receipt_line_bytes, with_id, must_rotate, rotate_file, rotate, append_line,
  after_rotation, save, contains_nul, new_receipt_store,
}

-- What `encoding/json` promises: an encoded receipt is read back, also with space round its line.
pub record IsCodec (codec : Codec) : Type 0 where
  pub reads_back :
      (r : Receipt) (line : String)
      → codec.encode r ≡ some line
      → (codec.decode (trim_space line) ≡ some r) × (trim_space line ≢ "")

-- The file reads as what the store holds in memory, and its last line is ended.
pub record IsDurable (codec : Codec) (w : World) : Type 0 where
  pub ended : w.files.fragment ≡ ""
  pub bad_lines : ℕ
  pub loads :
      load_existing codec (file_lines w.files)
      ≡ ok (record {
        receipts = w.store.receipts;
        entry_count = w.store.entry_count;
        bad_lines = bad_lines;
      })

abbrev pub working : Disk
working = record { mkdirs = true; renames = true; opens = true; write = whole; syncs = true }

module _ (codec : Codec) where
  pub load_lines-append :
      (lines : List String) (line : String) (l m : Loaded)
      → load_lines codec lines l ≡ ok m
      → load_lines codec (lines ++ line ∷ []) l ≡ (
          if leb max_receipt_line_bytes (len line)
          then err line_too_long
          else ok (load_line codec line m))
  unfolding load_lines
  load_lines-append [] line l m h = ground arith
  load_lines-append (x ∷ xs) line l m h =
      ground (arith, load_lines-append xs line (load_line codec x l) m)

  load_existing-ok :
      (lines : List String) (l : Loaded)
      → load_existing codec lines ≡ ok l
      → load_lines codec lines nothing_loaded ≡ ok l
  unfolding load_existing
  load_existing-ok lines l h = ground arith

  load_line-decoded :
      (line : String) (r : Receipt) (m : Loaded)
      → codec.decode (trim_space line) ≡ some r
      → trim_space line ≢ ""
      → load_line codec line m
        ≡ record m { receipts = insert r.receipt_id r m.receipts; entry_count = m.entry_count + 1 }
  unfolding load_line
  load_line-decoded line r m e n = ground (arith, eq_iff (trim_space line) "")

  insert-ne-nil : (k : String) (r : Receipt) (m : Dict Receipt) → is_empty (insert k r m) ≡ false
  unfolding insert
  insert-ne-nil k r [] = refl
  insert-ne-nil k r ((j, v) ∷ m) = ground arith

  load_existing-append :
      (lines : List String) (line : String) (r : Receipt) (l : Loaded)
      → load_existing codec lines ≡ ok l
      → codec.decode (trim_space line) ≡ some r
      → trim_space line ≢ ""
      → len line < max_receipt_line_bytes
      → load_existing codec (lines ++ line ∷ [])
        ≡ ok (record l {
          receipts = insert r.receipt_id r l.receipts;
          entry_count = l.entry_count + 1;
        })
  unfolding load_existing
  load_existing-append lines line r l h e n fits = ground (
    arith,
    load_lines-append lines line nothing_loaded l,
    load_line-decoded line r l e n,
    insert-ne-nil r.receipt_id r l.receipts,
  )

  -- A write that leaves no part of its line if it fails.
  abbrev pub IsUntorn : Write → Type 0
  IsUntorn whole = Unit {0}
  IsUntorn (torn part) = part ≡ ""

  -- A line of the receipt is short enough to be scanned.
  abbrev pub FitsLine : Receipt → Type 0
  FitsLine r = (line : String) → codec.encode r ≡ some line → len line < max_receipt_line_bytes

  whole-or-empty : (write : Write) → IsUntorn write → (write ≡ whole) ⊎ (write ≡ torn "")
  whole-or-empty whole h = inl refl
  whole-or-empty (torn part) h = inr (ap torn h)

  lines-after_write :
      (line : String) (files : Files)
      → files.fragment ≡ ""
      → file_lines (after_write whole line files) ≡ file_lines files ++ line ∷ []
  lines-after_write line files e = rw e refl

  append_line-IsDurable :
      (disk : Disk) (r : Receipt) (o : Option String) (w : World)
      → IsCodec codec
      → FitsLine r
      → IsUntorn disk.write
      → codec.encode r ≡ o
      → IsDurable codec w
      → (append_line disk r o w).0 ≢ err sync_failed
      → IsDurable codec (append_line disk r o w).1
  unfolding append_line
  append_line-IsDurable disk r none w c fits untorn e h n = h
  append_line-IsDurable disk r (some line) w c fits untorn e h n =
      let (decoded, shown) = c.reads_back r line e in
      let grown =
        load_existing-append (file_lines w.files) line r _ h.loads decoded shown (fits line e) in
      let added = ap (load_existing codec) (lines-after_write line w.files h.ended) in
      let kept = h.loads in
      let ended = h.ended in
      elim (Bool-cases disk.opens) [
        | inr p ↦ rw p h
        | inl p ↦ elim (whole-or-empty disk.write untorn) [
          | inr q ↦
              rw (p, q)
                (record {
                  ended = append-nil w.files.fragment ∙ h.ended;
                  bad_lines = h.bad_lines;
                  loads = (rw ended refl) ∙ kept;
                })
          | inl q ↦ elim (Bool-cases disk.syncs) [
            | inr s ↦ absurd (n (rw (p, q, s)))
            | inl s ↦
                rw (p, q, s)
                  (record { ended = refl; bad_lines = h.bad_lines; loads = added ∙ grown })
          ]
        ]
      ]

  rotate_file-IsDurable :
      (disk : Disk) (stamp : String) (o : Option (List String)) (w : World)
      → w.files.current ≡ o
      → IsDurable codec w
      → IsDurable codec (rotate_file disk stamp o w).1
  unfolding rotate_file load_existing load_lines
  rotate_file-IsDurable disk stamp none w e h = record {
    ended = h.ended;
    bad_lines = 0;
    loads = rw (h.ended, ap lines_of e) refl;
  }
  rotate_file-IsDurable disk stamp (some lines) w e h = elim (Bool-cases disk.renames) [
    | inl p ↦ rw p (record { ended = refl; bad_lines = 0; loads = refl })
    | inr p ↦ rw p h
  ]

  after_rotation-IsDurable :
      (disk : Disk) (r : Receipt) (m : Result (Unit {0}) × World)
      → IsCodec codec
      → FitsLine r
      → IsUntorn disk.write
      → IsDurable codec m.1
      → (after_rotation codec disk r m).0 ≢ err sync_failed
      → IsDurable codec (after_rotation codec disk r m).1
  unfolding after_rotation
  after_rotation-IsDurable disk r (err e, w) c fits untorn h n = h
  after_rotation-IsDurable disk r (ok _, w) c fits untorn h n =
      append_line-IsDurable disk r (codec.encode r) w c fits untorn refl h n

  -- If the codec reads back what it writes, and the receipt's line fits into the scanner's buffer,
  -- then after `Save` the file reads as what the store holds and its last line is ended, if this was so
  -- before: over rotations, and whatever fails, but for the sync and a write that leaves a part of its
  -- line.
  pub save-IsDurable :
      (disk : Disk) (id stamp : String) (r : Receipt) (w : World)
      → IsCodec codec
      → FitsLine (with_id id r)
      → IsUntorn disk.write
      → IsDurable codec w
      → (save codec disk id stamp r w).0 ≢ err sync_failed
      → IsDurable codec (save codec disk id stamp r w).1
  unfolding save rotate
  save-IsDurable disk id stamp r w c fits untorn h n =
      after_rotation-IsDurable disk (with_id id r) _ c fits untorn (rotated (must_rotate w.store)) n
    where
      rotated : (b : Bool) → IsDurable codec (if b then rotate disk stamp w else (ok tt, w)).1
      rotated true = rotate_file-IsDurable disk stamp w.files.current w refl h
      rotated false = h

  -- A path that `NewReceiptStore` takes as it is.
  abbrev pub IsPath : String → Type 0
  IsPath path = (path ≢ "") × (trim_space path ≡ path) × (contains_nul path ≡ false)

  too_long_fails :
      (lines : List String) (line : String) (l : Loaded)
      → load_lines codec lines nothing_loaded ≡ ok l
      → max_receipt_line_bytes ≤ len line
      → load_existing codec (lines ++ line ∷ []) ≡ err line_too_long
  unfolding load_existing
  too_long_fails lines line l h long =
      ground (arith, h, load_lines-append lines line nothing_loaded l)

  -- the world after a line is written and its receipt is kept
  abbrev pub kept_line : Receipt → String → World → World
  kept_line r line w = record {
    store = record (w.store) {
      receipts = insert r.receipt_id r w.store.receipts;
      entry_count = w.store.entry_count + 1;
    };
    files = after_write whole line w.files;
  }

  pub save_line :
      (id stamp : String) (r : Receipt) (w : World) (line : String)
      → must_rotate w.store ≡ false
      → codec.encode (with_id id r) ≡ some line
      → save codec working id stamp r w ≡ (ok (with_id id r), kept_line (with_id id r) line w)
  unfolding save append_line after_rotation
  save_line id stamp r w line no_rotation e = rw (no_rotation, e) refl

  pub open-load :
      (disk : Disk) (path : String) (n : ℕ) (files : Files)
      → IsPath path
      → disk.mkdirs ≡ true
      → disk.opens ≡ true
      → new_receipt_store codec disk path n files
        ≡ open_store path n
            (record files { current = some (lines_of files.current) })
            (load_existing codec (file_lines files))
  unfolding new_receipt_store
  open-load disk path n files (full, trimmed, clear) m o =
      let blank : (path == "") ≡ false = ground (arith, full, eq_iff path "") in
      rw (blank, trimmed, clear, m, o) refl

  -- `Save` accepts a receipt whose line has 1 MiB or more, when no rotation is due and the file reads as the memory of a
  -- store with a usable path, and opening a store on the file then fails, although nothing fails on the disk.
  pub save_too_long :
      (id stamp : String) (r : Receipt) (w : World) (line : String)
      → IsDurable codec w
      → IsPath w.store.file_path
      → must_rotate w.store ≡ false
      → codec.encode (with_id id r) ≡ some line
      → max_receipt_line_bytes ≤ len line
      → ((save codec working id stamp r w).0 ≡ ok (with_id id r))
        × (new_receipt_store codec working w.store.file_path w.store.max_entries
              (save codec working id stamp r w).1.files
            ≡ err line_too_long)
  unfolding load_existing
  save_too_long id stamp r w line h path no_rotation e long =
      let lines = file_lines w.files in
      let refused = too_long_fails lines line _ (load_existing-ok lines _ h.loads) long in
      let reads = ap (load_existing codec) (lines-after_write line w.files h.ended) ∙ refused in
      let stored = save_line id stamp r w line no_rotation e in
      (
        ap (λ p. p.0) stored,
        (rw stored (
              open-load working w.store.file_path w.store.max_entries
                (after_write whole line w.files) path refl refl))
            ∙ ap (open_store w.store.file_path w.store.max_entries (after_write whole line w.files))
                reads,
      )
