-- ===== src/Receipts/Torn.antt =====
-- What is lost when a write to the receipts file breaks off.
use Prim.Native.String.{len}
use datafog.Prelude.{
  ◌∙◌, ◌+◌, ◌<◌, String, false, ◌≡◌, ◌≢◌, refl, ap, none, some, List, [], ◌∷◌, ◌++◌, arith, eq_iff,
  is_empty,
}
use datafog.Strings.{trim_space}
use datafog.Strings.Append.{◌<>◌}
use datafog.Models.{Receipt}
use datafog.Receipts.{
  Codec, Disk, whole, torn, World, Files, open_store, write_failed, after_write, file_lines, ok,
  err, Loaded, nothing_loaded, load_line, load_existing, max_receipt_line_bytes, with_id,
  must_rotate, append_line, after_rotation, save, new_receipt_store,
}
use datafog.Receipts.Recovery.{IsDurable, IsPath, working, load_lines-append, save_line, open-load}

module _ (codec : Codec) where
  load_existing-append_bad :
      (lines : List String) (line : String) (l : Loaded)
      → load_existing codec lines ≡ ok l
      → is_empty l.receipts ≡ false
      → codec.decode (trim_space line) ≡ none
      → trim_space line ≢ ""
      → len line < max_receipt_line_bytes
      → load_existing codec (lines ++ line ∷ []) ≡ ok (record l { bad_lines = l.bad_lines + 1 })
  unfolding load_existing load_line
  load_existing-append_bad lines line l h some_receipt e n fits =
      ground
        (arith, load_lines-append codec lines line nothing_loaded l, eq_iff (trim_space line) "")

  -- the disk on which a write breaks off
  abbrev pub tearing : String → Disk
  tearing part = record working { write = torn part }

  save_tears :
      (part id stamp : String) (r : Receipt) (w : World) (line : String)
      → must_rotate w.store ≡ false
      → codec.encode (with_id id r) ≡ some line
      → save codec (tearing part) id stamp r w
        ≡ (err write_failed, record w { files = after_write (torn part) line w.files })
  unfolding save append_line after_rotation
  save_tears part id stamp r w line no_rotation e = rw (no_rotation, e) refl

  lines-torn_whole :
      (part line first : String) (files : Files)
      → files.fragment ≡ ""
      → file_lines (after_write whole line (after_write (torn part) first files))
        ≡ file_lines files ++ (part <> line) ∷ []
  lines-torn_whole part line first files e = rw e refl

  -- When a write breaks off, its `Save` fails; the next one, on a disk where nothing fails, glues its
  -- line to the part that is left, and accepts its receipt. If that line is no receipt, then opening a
  -- store on the file gives the receipts from before both: the accepted one is lost. Both receipts can be
  -- encoded, no rotation is due, the file reads as the memory of the store, which has a receipt and a
  -- usable path, and the glued line is not blank and fits into the scanner's buffer.
  pub save_torn :
      (part id stamp : String) (failed r : Receipt) (w : World) (first line : String)
      → IsDurable codec w
      → IsPath codec w.store.file_path
      → must_rotate w.store ≡ false
      → is_empty w.store.receipts ≡ false
      → codec.encode (with_id id failed) ≡ some first
      → codec.encode (with_id id r) ≡ some line
      → codec.decode (trim_space (part <> line)) ≡ none
      → trim_space (part <> line) ≢ ""
      → len (part <> line) < max_receipt_line_bytes
      → let before = save codec (tearing part) id stamp failed w in
        let after = save codec working id stamp r before.1 in
        (before.0 ≡ err write_failed)
        × (after.0 ≡ ok (with_id id r))
        × ((reopened : World) × (new_receipt_store codec working w.store.file_path
                w.store.max_entries after.1.files
              ≡ ok reopened)
            × (reopened.store ≡ w.store))
  save_torn part id stamp failed r w first line h path no_rotation some_receipt e k bad shown fits =
      let torn_world = record w { files = after_write (torn part) first w.files } in
      let tears = save_tears part id stamp failed w first no_rotation e in
      let stored = save_line codec id stamp r torn_world line no_rotation k in
      let files = after_write whole line torn_world.files in
      let reads =
        ap (load_existing codec) (lines-torn_whole part line first w.files h.ended)
        ∙ load_existing-append_bad (file_lines w.files) (part <> line) _ h.loads some_receipt bad
            shown fits in
      let opens =
        open-load codec working w.store.file_path w.store.max_entries files path refl refl in
      (
        ap (λ p. p.0) tears,
        (rw tears (ap (λ p. p.0) stored)),
        (
          record { store = w.store; files = files },
          (rw (tears, stored) opens)
              ∙ ap (open_store w.store.file_path w.store.max_entries files) reads,
          refl,
        ),
      )
