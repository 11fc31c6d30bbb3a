-- ===== src/Scan/Address.antt =====
-- What `ipv4Valid` accepts, told without its loop: the text is cut at its dots and each part is
-- tested.
use datafog.Prelude.{
  ℕ, ◌+◌, ◌-◌, ◌*◌, ◌≤◌, Bool, true, false, not, ◌&&◌, ◌≡◌, ◌∙◌, refl, ap, inl, inr, none, some,
  List, [], ◌∷◌, ◌++◌, arith, all, leb, eqb, length, length-append, if◌then◌else◌, Bool-cases,
}
use datafog.Strings.{Bytes}
use datafog.Scan.Validators.{
  is_digit, Octets, finish, close_octet, ipv4_step, ipv4_loop, ipv4_valid,
}

-- the number that the digits write, after those that made `n`
unfoldable pub decimal_from : ℕ → Bytes → ℕ
decimal_from n [] = n
decimal_from n (c ∷ s) = decimal_from (n * 10 + (c - b'0')) s

abbrev pub decimal : Bytes → ℕ
decimal s = decimal_from 0 s

abbrev pub is_octet : Bytes → Bool
is_octet s = all is_digit s && leb 1 (length s) && leb (length s) 3 && leb (decimal s) 255

-- the parts of a text between its dots, the first of them after `p`
unfoldable pub split_from : Bytes → Bytes → List Bytes
split_from p [] = p ∷ []
split_from p (c ∷ s) = if eqb c b'.' then p ∷ split_from [] s else split_from (p ++ (c ∷ [])) s

unfoldable pub is_address : Bytes → Bool
is_address s = all is_octet (split_from [] s) && eqb (length (split_from [] s)) 4

decimal_from-append :
    (n : ℕ) (s : Bytes) (c : ℕ)
    → decimal_from n (s ++ (c ∷ [])) ≡ decimal_from n s * 10 + (c - b'0')
unfolding decimal_from
decimal_from-append n [] c = refl
decimal_from-append n (d ∷ s) c = decimal_from-append (n * 10 + (d - b'0')) s c

all-append : {A : Type 0} (p : A → Bool) (xs ys : List A) → all p (xs ++ ys) ≡ all p xs && all p ys
all-append p [] ys = refl
all-append p (x ∷ xs) ys = ground (arith, all-append p xs ys)

split_length : (p s : Bytes) → 1 ≤ length (split_from p s)
unfolding split_from
split_length p [] = omega arith
split_length p (c ∷ s) = elim (Bool-cases (eqb c b'.')) [
  | inl e ↦ rw e (omega arith)
  | inr e ↦ rw e (split_length (p ++ (c ∷ [])) s)
]

-- a part that is no octet however it goes on
split_bad :
    (p s : Bytes)
    → all is_digit p && leb (length p) 3 ≡ false
    → all is_octet (split_from p s) ≡ false
unfolding split_from
split_bad p [] h = ground arith
split_bad p (c ∷ s) h = elim (Bool-cases (eqb c b'.')) [
  | inl e ↦ rw e (ground arith)
  | inr e ↦ rw e (
      split_bad (p ++ (c ∷ [])) s
        (ground (arith, all-append is_digit p (c ∷ []), length-append p (c ∷ []))))
]

none_finishes : (s : Bytes) → finish (ipv4_loop s none) ≡ false
unfolding ipv4_loop finish
none_finishes s = refl

abbrev state : ℕ → Bytes → Octets
state n p = record { octet_count = n; value = decimal p; digits_in_octet = length p }

close_octet_lem :
    (n : ℕ) (p : Bytes)
    → all is_digit p ≡ true
    → length p ≤ 3
    → n ≤ 4
    → close_octet (state n p) ≡ (if is_octet p && leb n 3 then some (state (n + 1) []) else none)
unfolding close_octet decimal_from
close_octet_lem n p d l b = ground arith

ipv4_step_dot : (c : ℕ) (o : Octets) → eqb c b'.' ≡ true → ipv4_step c o ≡ close_octet o
unfolding ipv4_step
ipv4_step_dot c o e = rw e refl

loop_turn :
    (c : ℕ) (s : Bytes) (o : Octets) → ipv4_loop (c ∷ s) (some o) ≡ ipv4_loop s (ipv4_step c o)
unfolding ipv4_loop
loop_turn c s o = refl

split_dot : (c : ℕ) (p s : Bytes) → eqb c b'.' ≡ true → split_from p (c ∷ s) ≡ p ∷ split_from [] s
unfolding split_from
split_dot c p s e = rw e refl

split_other :
    (c : ℕ) (p s : Bytes) → eqb c b'.' ≡ false → split_from p (c ∷ s) ≡ split_from (p ++ (c ∷ [])) s
unfolding split_from
split_other c p s e = rw e refl

-- one turn, on a byte that is not a dot
ipv4_step_other :
    (c n : ℕ) (p : Bytes)
    → eqb c b'.' ≡ false
    → ipv4_step c (state n p)
      ≡ (if is_digit c && not (leb 3 (length p)) then some (state n (p ++ (c ∷ []))) else none)
unfolding ipv4_step
ipv4_step_other c n p e = rw (e, decimal_from-append 0 p c, length-append p (c ∷ [])) (ground arith)

ipv4_loop_lem :
    (s : Bytes) (n : ℕ) (p : Bytes)
    → all is_digit p ≡ true
    → length p ≤ 3
    → n ≤ 4
    → finish (ipv4_loop s (some (state n p)))
      ≡ all is_octet (split_from p s) && eqb (n + length (split_from p s)) 4
unfolding ipv4_loop finish
ipv4_loop_lem [] n p d l b = rw (close_octet_lem n p d l b) (unfold split_from in ground arith)
ipv4_loop_lem (c ∷ s) n p d l b = elim (Bool-cases (eqb c b'.')) [
  | inl e ↦ elim (Bool-cases (is_octet p && leb n 3)) [
    | inl o ↦
        rw
          (
            loop_turn c s (state n p),
            split_dot c p s e,
            ipv4_step_dot c (state n p) e,
            close_octet_lem n p d l b,
            o,
          )
          (ipv4_loop_lem s (n + 1) [] refl (omega arith) (ground arith) ∙ ground arith)
    | inr o ↦
        rw
          (
            loop_turn c s (state n p),
            split_dot c p s e,
            ipv4_step_dot c (state n p) e,
            close_octet_lem n p d l b,
            o,
          )
          (none_finishes s ∙ ground (arith, split_length [] s))
  ]
  | inr e ↦ elim (Bool-cases (is_digit c && not (leb 3 (length p)))) [
    | inl o ↦
        rw (loop_turn c s (state n p), split_other c p s e, ipv4_step_other c n p e, o)
          (ipv4_loop_lem s n (p ++ (c ∷ [])) (ground (arith, all-append is_digit p (c ∷ [])))
            (ground (arith, length-append p (c ∷ []))) b)
    | inr o ↦
        rw (loop_turn c s (state n p), split_other c p s e, ipv4_step_other c n p e, o)
          (none_finishes s
            ∙ ground (
              arith,
              length-append p (c ∷ []),
              all-append is_digit p (c ∷ []),
              split_bad (p ++ (c ∷ [])) s,
            ))
  ]
]

empty_is_no_address : is_address [] ≡ false
unfolding is_address split_from decimal_from
empty_is_no_address = refl

-- `ipv4Valid` accepts exactly four parts, cut at the dots, each of one to three digits that write a
-- number up to 255.
pub ipv4_valid_lem : (s : Bytes) → ipv4_valid s ≡ is_address s
unfolding ipv4_valid is_address finish ipv4_loop decimal_from
ipv4_valid_lem [] = rw empty_is_no_address refl
ipv4_valid_lem (c ∷ s) =
    ipv4_loop_lem (c ∷ s) 0 [] refl (omega arith) (omega arith)
    ∙ ap (λ n. all is_octet (split_from [] (c ∷ s)) && eqb n 4) (omega arith)
