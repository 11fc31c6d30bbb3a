-- ===== src/Strings/Path/Joined.antt =====
-- What a path joined with the base of another is.
use Prim.Native.Char.{Char, code}
use datafog.Prelude.{
  String, Bool, true, false, List, [], ◌∷◌, ◌++◌, ◌≡◌, ◌≢◌, refl, ap, sym, ◌∙◌, ◌==◌, eq_iff, eqb,
  Bool-cases, inl, inr,
}
use datafog.Strings.Append.{◌<>◌, append_assoc, append-nil}
use datafog.Strings.Path.{
  strip_slashes, after_last_slash, contains_slash, base, push_part, split_path, is_rooted,
  keep_part, keep_parts, join_parts, clean, join_path,
}

last-contains_slash :
    (seen s : String)
    → (contains_slash s ≡ false → contains_slash seen ≡ false)
    → contains_slash (after_last_slash seen s) ≡ false
unfolding contains_slash after_last_slash
last-contains_slash seen String.[] h = h refl
last-contains_slash seen (String.◌∷◌ c s) h = elim (Bool-cases (eqb (code c) 47)) [
  | inl e ↦ rw e (last-contains_slash s s (λ k. k))
  | inr e ↦ rw e (last-contains_slash seen s (λ k. h (rw e k)))
]

-- The base of a path holds no slash, if the path is not of slashes alone.
pub base-contains_slash :
    (path : String) → (base path == "/") ≡ false → contains_slash (base path) ≡ false
unfolding base contains_slash
base-contains_slash path h = elim (Bool-cases (path == "")) [
  | inl e ↦ rw (base, e) refl
  | inr e ↦ elim (Bool-cases (strip_slashes path == "")) [
    | inl s ↦ cc (rw (base, e, s) at h)
    | inr s ↦
        rw (base, e, s) (last-contains_slash (strip_slashes path) (strip_slashes path) (λ k. k))
  ]
]

pub split_one : (name : String) → contains_slash name ≡ false → split_path name ≡ name ∷ []
unfolding split_path contains_slash
split_one String.[] h = refl
split_one (String.◌∷◌ c s) h = elim (Bool-cases (eqb (code c) 47)) [
  | inl e ↦ cc (rw e at h)
  | inr e ↦ rw e (ap (push_part c) (split_one s (rw e at h)))
]

is_none : List String → Bool
is_none [] = true
is_none (x ∷ xs) = false

push_some : (c : Char) (xs : List String) → is_none (push_part c xs) ≡ false
unfolding is_none
push_some c [] = refl
push_some c (x ∷ xs) = refl

split_some : (s : String) → is_none (split_path s) ≡ false
unfolding split_path is_none
split_some String.[] = refl
split_some (String.◌∷◌ c s) = elim (Bool-cases (eqb (code c) 47)) [
  | inl e ↦ rw e refl
  | inr e ↦ rw e (push_some c (split_path s))
]

push-append :
    (c : Char) (xs ys : List String)
    → is_none xs ≡ false
    → push_part c (xs ++ ys) ≡ push_part c xs ++ ys
unfolding is_none
push-append c [] ys h = cc
push-append c (x ∷ xs) ys h = refl

pub split-append : (s t : String) → split_path (s <> ("/" <> t)) ≡ split_path s ++ split_path t
unfolding split_path
split-append String.[] t = refl
split-append (String.◌∷◌ c s) t = elim (Bool-cases (eqb (code c) 47)) [
  | inl e ↦ rw e (ap (◌∷◌ "") (split-append s t))
  | inr e ↦ rw e (
      ap (push_part c) (split-append s t)
      ∙ push-append c (split_path s) (split_path t) (split_some s))
]

pub keep-append :
    (rooted : Bool) (xs ys kept : List String)
    → keep_parts rooted (xs ++ ys) kept ≡ keep_parts rooted ys (keep_parts rooted xs kept)
unfolding keep_parts
keep-append rooted [] ys kept = refl
keep-append rooted (x ∷ xs) ys kept = keep-append rooted xs ys (keep_part rooted x kept)

join-append :
    (parts : List String) (end : String) → join_parts parts end ≡ join_parts parts "" <> end
unfolding join_parts
join-append [] end = refl
join-append (part ∷ []) end = ap (λ p. p <> end) (sym (append-nil part))
join-append (part ∷ more ∷ parts) end =
    join-append (more ∷ parts) ("/" <> (part <> end))
    ∙ ap (λ p. join_parts (more ∷ parts) "" <> ("/" <> (p <> end))) (sym (append-nil part))
    ∙ sym (append_assoc (join_parts (more ∷ parts) "") ("/" <> (part <> "")) end)
    ∙ ap (λ p. p <> end) (sym (join-append (more ∷ parts) ("/" <> (part <> ""))))

pub rooted-append : (dir end : String) → is_rooted dir ≡ true → is_rooted (dir <> end) ≡ true
rooted-append String.[] end h = cc
rooted-append (String.◌∷◌ c s) end h = h

pub rooted_there : (dir : String) → is_rooted dir ≡ true → (dir == "") ≡ false
rooted_there dir h = elim (Bool-cases (dir == "")) [
  | inl e ↦ let no : false ≡ true = ap is_rooted (sym ((eq_iff dir "").0 e)) ∙ h in cc
  | inr e ↦ e
]

-- a part that `clean` keeps as it is
unfoldable pub IsName : String → Type 0
IsName name =
    (contains_slash name ≡ false)
    × ((name == "") ≡ false)
    × ((name == ".") ≡ false)
    × ((name == "..") ≡ false)

parts_joined :
    (kept : List String) (dir name : String)
    → "/" <> join_parts kept "" ≡ dir
    → dir ≢ "/"
    → "/" <> join_parts (name ∷ kept) "" ≡ dir <> ("/" <> name)
unfolding join_parts
parts_joined [] dir name h n = absurd (n (sym h))
parts_joined (k ∷ kept) dir name h n =
    ap (λ p. "/" <> join_parts (k ∷ kept) ("/" <> p)) (append-nil name)
    ∙ ap (λ p. "/" <> p) (join-append (k ∷ kept) ("/" <> name))
    ∙ ap (λ p. p <> ("/" <> name)) h

-- A name joined to a clean directory from the root, other than the root itself, is the entry of that
-- name in the directory.
pub join_path-IsName :
    (dir name : String)
    → clean dir ≡ dir
    → is_rooted dir ≡ true
    → dir ≢ "/"
    → IsName name
    → join_path dir name ≡ dir <> ("/" <> name)
unfolding join_path clean keep_parts IsName keep_part
join_path-IsName dir name c r n (flat, full, here, up) =
    let parts : keep_parts true (split_path (dir <> ("/" <> name))) []
        ≡ name ∷ keep_parts true (split_path dir) [] =
      ap (λ ps. keep_parts true ps [])
        (split-append dir name ∙ ap (λ x. split_path dir ++ x) (split_one name flat))
      ∙ keep-append true (split_path dir) (name ∷ []) []
      ∙ (rw (full, here, up) refl) in
    let before : "/" <> join_parts (keep_parts true (split_path dir) []) "" ≡ dir = (rw r at c) in
    rw (rooted_there dir r, rooted-append dir ("/" <> name) r, parts)
      (parts_joined (keep_parts true (split_path dir) []) dir name before n)
