-- ===== src/Receipts/Keeps.antt =====
-- What `Save` does to the receipts in memory.
use datafog.Prelude.{
  ◌+◌, ◌≤◌, ◌<◌, String, Bool, Bool-cases, true, false, ◌≡◌, ◌∙◌, refl, ap, inl, inr, Option, none,
  some, List, [], ◌∷◌, arith, ◌==◌, length, Dict, lookup, insert, lookup-insert, if◌then◌else◌,
}
use datafog.Models.{Receipt}
use datafog.Receipts.{
  Codec, Disk, World, ReceiptStore, Result, ok, err, with_id, must_rotate, rotate_file, rotate,
  append_line, after_rotation, save, get,
}

length-insert {ℓ} :
    {V : Type ℓ} (k : String) (v : V) (m : Dict V) → length (insert k v m) ≤ length m + 1
unfolding insert
length-insert k v [] = omega arith
length-insert k v ((j, w) ∷ m) = ground (arith, length-insert k v m)

-- The count is within the limit, if there is one, and no receipt is uncounted.
pub record IsBounded (s : ReceiptStore) : Type 0 where
  pub within : 0 < s.max_entries → s.entry_count ≤ s.max_entries
  pub counted : length s.receipts ≤ s.entry_count

-- room for one more receipt
abbrev HasRoom : ReceiptStore → Type 0
HasRoom s =
    (0 < s.max_entries → s.entry_count < s.max_entries) × (length s.receipts ≤ s.entry_count)

append_line-IsBounded :
    (disk : Disk) (r : Receipt) (o : Option String) (w : World)
    → HasRoom w.store
    → IsBounded (append_line disk r o w).1.store
unfolding append_line
append_line-IsBounded disk r none w h = ground arith
append_line-IsBounded disk r (some line) w h =
    ground (arith, length-insert r.receipt_id r w.store.receipts)

-- after a rotation that succeeds there is room, one that fails changes nothing
abbrev Rotated : Result (Unit {0}) × World → Type 0
Rotated (ok _, w) = HasRoom w.store
Rotated (err _, w) = IsBounded w.store

rotate_file-Rotated :
    (disk : Disk) (stamp : String) (o : Option (List String)) (w : World)
    → IsBounded w.store
    → Rotated (rotate_file disk stamp o w)
unfolding rotate_file
rotate_file-Rotated disk stamp none w h = (λ p. p, omega arith)
rotate_file-Rotated disk stamp (some lines) w h = elim (Bool-cases disk.renames) [
  | inl e ↦ rw e (λ p. p, omega arith)
  | inr e ↦ rw e h
]

module _ (codec : Codec) (disk : Disk) where
  after_rotation-IsBounded :
      (r : Receipt) (m : Result (Unit {0}) × World)
      → Rotated m
      → IsBounded (after_rotation codec disk r m).1.store
  unfolding after_rotation
  after_rotation-IsBounded r (ok _, w) h = append_line-IsBounded disk r (codec.encode r) w h
  after_rotation-IsBounded r (err _, w) h = h

  Rotated-if :
      (stamp : String) (w : World)
      → IsBounded w.store
      → Rotated (if must_rotate w.store then rotate disk stamp w else (ok tt, w))
  unfolding rotate
  Rotated-if stamp w h = elim (Bool-cases (must_rotate w.store)) [
    | inl e ↦ rw e (rotate_file-Rotated disk stamp w.files.current w h)
    | inr e ↦ rw e (λ p. ground arith, h.counted)
  ]

  -- `Save`, also when it fails, keeps the count within the limit, if there is one, and at least the
  -- number of receipts in memory.
  pub save-IsBounded :
      (id stamp : String) (r : Receipt) (w : World)
      → IsBounded w.store
      → IsBounded (save codec disk id stamp r w).1.store
  unfolding save
  save-IsBounded id stamp r w h = after_rotation-IsBounded (with_id id r) _ (Rotated-if stamp w h)

  append_line-ok :
      (r saved : Receipt) (o : Option String) (w : World)
      → (append_line disk r o w).0 ≡ ok saved
      → (saved ≡ r)
        × ((append_line disk r o w).1.store.receipts ≡ insert r.receipt_id r w.store.receipts)
  unfolding append_line
  append_line-ok r saved none w h = cc
  append_line-ok r saved (some line) w h = ground arith

  after_rotation-ok :
      (r saved : Receipt) (m : Result (Unit {0}) × World)
      → (after_rotation codec disk r m).0 ≡ ok saved
      → (saved ≡ r)
        × (m.0 ≡ ok tt)
        × ((after_rotation codec disk r m).1.store.receipts
            ≡ insert r.receipt_id r m.1.store.receipts)
  unfolding after_rotation
  after_rotation-ok r saved (ok tt, w) h =
      let (same, more) = append_line-ok r saved (codec.encode r) w h in (same, refl, more)
  after_rotation-ok r saved (err _, w) h = cc

  rotate_file-ok :
      (stamp : String) (o : Option (List String)) (w : World)
      → (rotate_file disk stamp o w).0 ≡ ok tt
      → (rotate_file disk stamp o w).1.store.receipts ≡ []
  unfolding rotate_file
  rotate_file-ok stamp none w h = refl
  rotate_file-ok stamp (some lines) w h = ground arith

  get-after_rotation :
      (b : Bool) (stamp : String) (r saved : Receipt) (w : World) (j : String)
      → (after_rotation codec disk r (if b then rotate disk stamp w else (ok tt, w))).0 ≡ ok saved
      → (saved ≡ r)
        × (lookup j
              (after_rotation codec disk r
                (if b then rotate disk stamp w else (ok tt, w))).1.store.receipts
            ≡ (if saved.receipt_id == j
                then some saved
                else if b
                then none
                else lookup j w.store.receipts))
  unfolding rotate
  get-after_rotation true stamp r saved w j h =
      let m = rotate_file disk stamp w.files.current w in
      let (same, rotated, more) = after_rotation-ok r saved m h in
      let empty = rotate_file-ok stamp w.files.current w rotated in
      (
        same,
        ap (lookup j) more
            ∙ lookup-insert r.receipt_id j r m.1.store.receipts
            ∙ (rw (same, empty) (unfold lookup in refl)),
      )
  get-after_rotation false stamp r saved w j h =
      let (same, _, more) = after_rotation-ok r saved (ok tt, w) h in
      (same, ap (lookup j) more ∙ lookup-insert r.receipt_id j r w.store.receipts ∙ (rw same))

  -- When `Save` succeeds it returns the receipt, with a new id if it had none; the receipt is then
  -- found under its id, and every other id finds what it found before, or nothing if the receipts
  -- were rotated away.
  pub get-save :
      (id stamp : String) (r saved : Receipt) (w : World) (j : String)
      → (save codec disk id stamp r w).0 ≡ ok saved
      → (saved ≡ with_id id r)
        × (get j (save codec disk id stamp r w).1.store ≡ (
            if saved.receipt_id == j
            then some saved
            else if must_rotate w.store
            then none
            else get j w.store))
  unfolding save get
  get-save id stamp r saved w j h =
      get-after_rotation (must_rotate w.store) stamp (with_id id r) saved w j h
