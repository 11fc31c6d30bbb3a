-- ===== src/Receipts/Restart.antt =====
-- A store that is opened, saves receipts and is opened again.
use datafog.Prelude.{
  ℕ, String, Bool, true, false, Bool-cases, inl, inr, ◌≡◌, ◌≢◌, refl, ap, sym, ◌∙◌, Option, none,
  some, List, [], ◌∷◌, arith, if◌then◌else◌,
}
use mathlib.Core.Path.{subst}
use datafog.Models.{Receipt}
use datafog.Receipts.{
  Codec, Disk, World, Files, Loaded, Result, ok, err, sync_failed, lines_of, file_lines,
  load_existing, with_id, must_rotate, rotate_file, rotate, append_line, after_rotation, save,
  open_store, new_receipt_store,
}
use datafog.Receipts.Recovery.{
  IsCodec, IsDurable, IsUntorn, FitsLine, IsPath, open-load, save-IsDurable,
}

-- one call of `Save`, with what the system answers during it
pub record SaveCall : Type 0 where
  pub disk : Disk
  pub id : String
  pub stamp : String
  pub receipt : Receipt

world_in : World → Result World → World
world_in other (ok w) = w
world_in other (err e) = other

module _ (codec : Codec) where
  unfoldable pub save_all : List SaveCall → World → World
  save_all [] w = w
  save_all (c ∷ calls) w = save_all calls (save codec c.disk c.id c.stamp c.receipt w).1

  -- The line of each receipt fits into the scanner's buffer, no write leaves a part of its line, and no
  -- sync fails; anything else may fail.
  unfoldable pub AreSafe : List SaveCall → World → Type 0
  AreSafe [] w = Unit {0}
  AreSafe (c ∷ calls) w =
      FitsLine codec (with_id c.id c.receipt)
      × IsUntorn codec c.disk.write
      × ((save codec c.disk c.id c.stamp c.receipt w).0 ≢ err sync_failed)
      × AreSafe calls (save codec c.disk c.id c.stamp c.receipt w).1

  module _ (path : String) (n : ℕ) where
    -- the store's path and limit
    abbrev IsPlaced : World → Type 0
    IsPlaced w = (w.store.file_path ≡ path) × (w.store.max_entries ≡ n)

    append_line-IsPlaced :
        (disk : Disk) (r : Receipt) (o : Option String) (w : World)
        → IsPlaced w
        → IsPlaced (append_line disk r o w).1
    unfolding append_line
    append_line-IsPlaced disk r none w h = h
    append_line-IsPlaced disk r (some line) w h = ground arith

    rotate_file-IsPlaced :
        (disk : Disk) (stamp : String) (o : Option (List String)) (w : World)
        → IsPlaced w
        → IsPlaced (rotate_file disk stamp o w).1
    unfolding rotate_file
    rotate_file-IsPlaced disk stamp none w h = h
    rotate_file-IsPlaced disk stamp (some lines) w h = elim (Bool-cases disk.renames) [
      | inl e ↦ rw e h
      | inr e ↦ rw e h
    ]

    after_rotation-IsPlaced :
        (disk : Disk) (r : Receipt) (m : Result (Unit {0}) × World)
        → IsPlaced m.1
        → IsPlaced (after_rotation codec disk r m).1
    unfolding after_rotation
    after_rotation-IsPlaced disk r (err e, w) h = h
    after_rotation-IsPlaced disk r (ok _, w) h = append_line-IsPlaced disk r (codec.encode r) w h

    save-IsPlaced :
        (disk : Disk) (id stamp : String) (r : Receipt) (w : World)
        → IsPlaced w
        → IsPlaced (save codec disk id stamp r w).1
    unfolding save rotate
    save-IsPlaced disk id stamp r w h =
        after_rotation-IsPlaced disk (with_id id r) _ (rotated (must_rotate w.store))
      where
        rotated : (b : Bool) → IsPlaced (if b then rotate disk stamp w else (ok tt, w)).1
        rotated true = rotate_file-IsPlaced disk stamp w.files.current w h
        rotated false = h

    save_all-IsDurable :
        (calls : List SaveCall) (w : World)
        → IsCodec codec
        → AreSafe calls w
        → IsPlaced w × IsDurable codec w
        → IsPlaced (save_all calls w) × IsDurable codec (save_all calls w)
    unfolding save_all AreSafe
    save_all-IsDurable [] w c safe h = h
    save_all-IsDurable (s ∷ calls) w c (fits, untorn, synced, safe) (placed, durable) =
        save_all-IsDurable calls _ c safe (
          save-IsPlaced s.disk s.id s.stamp s.receipt w placed,
          save-IsDurable codec s.disk s.id s.stamp s.receipt w c fits untorn durable synced,
        )

    opened-IsDurable :
        (files : Files) (r : Result Loaded) (w : World)
        → load_existing codec (file_lines files) ≡ r
        → files.fragment ≡ ""
        → open_store path n (record files { current = some (lines_of files.current) }) r ≡ ok w
        → IsPlaced w × IsDurable codec w
    unfolding world_in
    opened-IsDurable files (err e) w loads ended h = cc
    opened-IsDurable files (ok l) w loads ended h =
        subst (λ x. IsPlaced x × IsDurable codec x) (ap (world_in w) h)
          ((refl, refl), record { ended = ended; bad_lines = l.bad_lines; loads = loads })

    open_store-durable :
        (w : World)
        → IsPlaced w
        → IsDurable codec w
        → (reopened : World) × (open_store path n
              (record (w.files) { current = some (lines_of w.files.current) })
              (load_existing codec (file_lines w.files))
            ≡ ok reopened)
          × (reopened.store ≡ w.store)
    open_store-durable w (at, limit) h =
        let files = record (w.files) { current = some (lines_of w.files.current) } in
        let path_is = sym at in
        let limit_is = sym limit in
        (
          record { store = record (w.store) { file_path = path; max_entries = n }; files = files },
          ap (open_store path n files) h.loads,
          λ i. record {
            file_path = path_is i;
            receipts = w.store.receipts;
            max_entries = limit_is i;
            entry_count = w.store.entry_count;
          },
        )

    -- A store that is opened on a file whose last line is ended, saves any receipts, whether it rotates
    -- its file or calls fail, and is opened again, is the store that it was: all receipts in memory and
    -- the count are found. The codec reads back what it writes, every line fits into the
    -- scanner's buffer, no write leaves a part of its line and no sync fails; the path is usable, and
    -- both times the directory and the file can be opened.
    pub reopen_after_saves :
        (disk : Disk) (files : Files) (opened : World) (calls : List SaveCall)
        → IsCodec codec
        → IsPath codec path
        → disk.mkdirs ≡ true
        → disk.opens ≡ true
        → files.fragment ≡ ""
        → new_receipt_store codec disk path n files ≡ ok opened
        → AreSafe calls opened
        → (reopened : World) × (new_receipt_store codec disk path n (save_all calls opened).files
            ≡ ok reopened)
          × (reopened.store ≡ (save_all calls opened).store)
    reopen_after_saves disk files opened calls c usable m o ended h safe =
        let before =
          opened-IsDurable files _ opened refl ended
            (sym (open-load codec disk path n files usable m o) ∙ h) in
        let (placed, durable) = save_all-IsDurable calls opened c safe before in
        let (reopened, opens, same) = open_store-durable (save_all calls opened) placed durable in
        (
          reopened,
          open-load codec disk path n (save_all calls opened).files usable m o ∙ opens,
          same,
        )
