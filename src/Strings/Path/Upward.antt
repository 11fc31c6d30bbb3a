-- ===== src/Strings/Path/Upward.antt =====
-- What a path is, joined with a name that `clean` does not keep: nothing, a dot, a slash, or two dots.
use datafog.Prelude.{
  String, Bool, true, false, ◌||◌, List, [], ◌∷◌, ◌≡◌, ◌≢◌, refl, ap, sym, ◌∙◌, ◌==◌, eq_iff,
  Bool-cases, inl, inr, if◌then◌else◌,
}
use datafog.Strings.Append.{◌<>◌}
use datafog.Strings.Path.{
  contains_slash, split_path, is_rooted, keep_part, keep_parts, join_parts, clean, join_path,
}
use datafog.Strings.Path.Joined.{
  split_one, split-append, keep-append, rooted-append, rooted_there, IsName, join_path-IsName,
}

-- the parts that `clean` keeps of a path from the root
abbrev kept : String → List String
kept dir = keep_parts true (split_path dir) []

join_path-kept :
    (dir name : String)
    → is_rooted dir ≡ true
    → join_path dir name ≡ "/" <> join_parts (keep_parts true (split_path name) (kept dir)) ""
unfolding join_path clean
join_path-kept dir name r =
    let parts =
      ap (λ ps. keep_parts true ps []) (split-append dir name)
      ∙ keep-append true (split_path dir) (split_path name) [] in
    rw (rooted_there dir r, rooted-append dir ("/" <> name) r, parts) refl

clean-kept :
    (dir : String) → clean dir ≡ dir → is_rooted dir ≡ true → "/" <> join_parts (kept dir) "" ≡ dir
unfolding clean
clean-kept dir c r = (rw r at c)

-- A name that is dropped leaves the directory.
join_path-dropped :
    (dir name : String)
    → clean dir ≡ dir
    → is_rooted dir ≡ true
    → keep_parts true (split_path name) (kept dir) ≡ kept dir
    → join_path dir name ≡ dir
join_path-dropped dir name c r h =
    join_path-kept dir name r ∙ ap (λ ps. "/" <> join_parts ps "") h ∙ clean-kept dir c r

kept-name : (dir name : String) → IsName name → kept (dir <> ("/" <> name)) ≡ name ∷ kept dir
unfolding IsName keep_parts keep_part
kept-name dir name (flat, full, here, up) =
    ap (λ ps. keep_parts true ps []) (split-append dir name)
    ∙ keep-append true (split_path dir) (split_path name) []
    ∙ ap (λ ps. keep_parts true ps (kept dir)) (split_one name flat)
    ∙ (rw (full, here, up) refl)

join_path-clean :
    (dir name : String) → is_rooted dir ≡ true → join_path dir name ≡ clean (dir <> ("/" <> name))
unfolding join_path
join_path-clean dir name r = rw (rooted_there dir r) refl

clean-entry :
    (dir name : String)
    → clean dir ≡ dir
    → is_rooted dir ≡ true
    → dir ≢ "/"
    → IsName name
    → clean (dir <> ("/" <> name)) ≡ dir <> ("/" <> name)
clean-entry dir name c r n is =
    sym (join_path-clean dir name r) ∙ join_path-IsName dir name c r n is

join_path-up :
    (dir name : String)
    → clean dir ≡ dir
    → is_rooted dir ≡ true
    → IsName name
    → join_path (dir <> ("/" <> name)) ".." ≡ dir
unfolding split_path keep_parts keep_part datafog.Strings.Path.go_up IsName
join_path-up dir name c r (flat, full, here, up) =
    join_path-kept (dir <> ("/" <> name)) ".." (rooted-append dir ("/" <> name) r)
    ∙ ap (λ ps. "/" <> join_parts (keep_parts true (".." ∷ []) ps) "")
        (kept-name dir name (flat, full, here, up))
    ∙ (rw up (clean-kept dir c r))

tail_blank : String → Bool
tail_blank String.[] = true
tail_blank (String.◌∷◌ c String.[]) = true
tail_blank (String.◌∷◌ c (String.◌∷◌ d s)) = false

entry-long : (dir name : String) → is_rooted dir ≡ true → tail_blank (dir <> ("/" <> name)) ≡ false
unfolding tail_blank
entry-long String.[] name h = cc
entry-long (String.◌∷◌ c String.[]) name h = refl
entry-long (String.◌∷◌ c (String.◌∷◌ d s)) name h = refl

entry-ne : (dir name : String) → is_rooted dir ≡ true → dir <> ("/" <> name) ≢ "/"
unfolding tail_blank
entry-ne dir name r e = let no : true ≡ false = sym (ap tail_blank e) ∙ entry-long dir name r in cc

-- What the last part of a path names behind the entry `name` of a directory: the directory above for two
-- dots, the entry itself for a part that says nothing, and else an entry of the entry.
abbrev pub place_of : String → String → String → String
place_of dir name last =
    if last == ".."
    then dir
    else if last == "" || last == "." || last == "/"
    then dir <> ("/" <> name)
    else (dir <> ("/" <> name)) <> ("/" <> last)

module _ (dir name : String) (c : clean dir ≡ dir) (r : is_rooted dir ≡ true) (n : dir ≢ "/")
    (is : IsName name) where
  dropped-place :
      (last : String)
      → keep_parts true (split_path last) (kept (dir <> ("/" <> name)))
        ≡ kept (dir <> ("/" <> name))
      → join_path (dir <> ("/" <> name)) last ≡ dir <> ("/" <> name)
  dropped-place last =
      join_path-dropped (dir <> ("/" <> name)) last (clean-entry dir name c r n is)
        (rooted-append dir ("/" <> name) r)

  -- A name without a slash, or a slash alone, joined with the entry of a clean directory is the place
  -- that it names.
  pub join_path-place :
      (last : String)
      → ((last == "/") ≡ false → contains_slash last ≡ false)
      → join_path (dir <> ("/" <> name)) last ≡ place_of dir name last
  unfolding split_path keep_parts keep_part IsName
  join_path-place last h = elim (Bool-cases (last == "..")) [
    | inl up ↦ rw up (
        ap (join_path (dir <> ("/" <> name))) ((eq_iff last "..").0 up)
        ∙ join_path-up dir name c r is)
    | inr no_up ↦ elim (Bool-cases (last == "")) [
      | inl e ↦
          rw (no_up, e)
            (ap (join_path (dir <> ("/" <> name))) ((eq_iff last "").0 e) ∙ dropped-place "" refl)
      | inr no_e ↦ elim (Bool-cases (last == ".")) [
        | inl d ↦
            rw (no_up, no_e, d)
              (ap (join_path (dir <> ("/" <> name))) ((eq_iff last ".").0 d)
                ∙ dropped-place "." refl)
        | inr no_d ↦ elim (Bool-cases (last == "/")) [
          | inl s ↦
              rw (no_up, no_e, no_d, s)
                (ap (join_path (dir <> ("/" <> name))) ((eq_iff last "/").0 s)
                  ∙ dropped-place "/" refl)
          | inr no_s ↦
              rw (no_up, no_e, no_d, no_s)
                (join_path-IsName (dir <> ("/" <> name)) last (clean-entry dir name c r n is)
                  (rooted-append dir ("/" <> name) r) (entry-ne dir name r)
                  (h no_s, no_e, no_d, no_up))
        ]
      ]
    ]
  ]
