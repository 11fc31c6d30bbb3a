-- ===== src/Shim/Queries.antt =====
-- What a query of the log of events returns.

use Prim.Native.String.{len}
use datafog.Prelude.{
  ℕ, zero, suc, ◌-◌, ◌≤◌, String, Bool, true, false, not, ◌&&◌, Option, none, some, List, [], ◌∷◌,
  ◌≡◌, ◌≢◌, refl, ap, ◌∙◌, ltb, leb, take, All, ◌==◌, arith, eq_iff, Bool-cases, inl, inr,
}
use datafog.Prelude.Int.{ℤ, pos, negsuc, ltb_ℤ}
use datafog.Strings.{Unicode}
use datafog.Shim.Gate.{DecisionEvent}
use datafog.Shim.Events.{
  EventJson, EventQuery, QueryError, lines, max_event_line, accept, is_full, add_event, query_lines,
  query,
}

-- at most so many elements, if the limit is positive
abbrev pub limited {ℓ} : {A : Type ℓ} → ℤ → List A → List A
limited (pos zero) xs = xs
limited (pos (suc n)) xs = take (suc n) xs
limited (negsuc n) xs = xs

abbrev pub add_asked : Option DecisionEvent → List DecisionEvent → List DecisionEvent
add_asked none events = events
add_asked (some event) events = event ∷ events

-- so many events reach the limit
abbrev reaches : ℤ → ℕ → Bool
reaches limit found = ltb_ℤ (pos 0) limit && not (ltb_ℤ (pos found) limit)

take_nil : (n : ℕ) → take {A = DecisionEvent} n [] ≡ []
take_nil zero = refl
take_nil (suc n) = refl

module _ ⦃u : Unicode⦄ (json : EventJson) (q : EventQuery) where
  -- the events that the query asks for, in the order of the log
  pub asked_for : List String → List DecisionEvent
  asked_for [] = []
  asked_for (line ∷ rest) = add_asked (accept json q line) (asked_for rest)

  unlimited_step :
      (found : ℕ) (o : Option DecisionEvent) (events : List DecisionEvent)
      (later : ℕ → List DecisionEvent × Option QueryError)
      → ((k : ℕ) → is_full json q k ≡ false)
      → ((k : ℕ) → later k ≡ (events, none))
      → add_event json q found o later ≡ (add_asked o events, none)
  unlimited_step found none events later h k = k found
  unlimited_step found (some e) events later h k = rw (h (suc found), k (suc found)) refl

  unlimited :
      (ls : List String) (found : ℕ)
      → All (λ line. leb max_event_line (len line) ≡ false) ls
      → ((k : ℕ) → is_full json q k ≡ false)
      → query_lines json q ls found ≡ (asked_for ls, none)
  unfolding query_lines asked_for
  unlimited [] found short h = refl
  unlimited (line ∷ rest) found (short, shorts) h = rw short (
      unlimited_step found (accept json q line) (asked_for rest) _ h
        (λ k. unlimited rest k shorts h))

  counted_step :
      (n found : ℕ) (o : Option DecisionEvent) (events : List DecisionEvent)
      (later : ℕ → List DecisionEvent × Option QueryError)
      → ((k : ℕ) → is_full json q k ≡ not (ltb k (suc n)))
      → found ≤ n
      → ((k : ℕ) → k ≤ n → later k ≡ (take (suc n - k) events, none))
      → add_event json q found o later ≡ (take (suc n - found) (add_asked o events), none)
  counted_step n found none events later h k l = l found k
  counted_step n found (some e) events later h k l = elim (Bool-cases (ltb (suc found) (suc n))) [
    | inl b ↦
        let left : suc n - found ≡ suc (suc n - suc found) = ground (arith, b) in
        let more : is_full json q (suc found) ≡ false = rw (h (suc found), b) refl in
        rw (more, l (suc found) (ground (arith, b)), left) refl
    | inr b ↦
        let left : suc n - found ≡ suc zero = ground (arith, b, k) in
        let full : is_full json q (suc found) ≡ true = rw (h (suc found), b) refl in
        rw (full, left) refl
  ]

  counted :
      (n : ℕ) (ls : List String) (found : ℕ)
      → All (λ line. leb max_event_line (len line) ≡ false) ls
      → ((k : ℕ) → is_full json q k ≡ not (ltb k (suc n)))
      → found ≤ n
      → query_lines json q ls found ≡ (take (suc n - found) (asked_for ls), none)
  unfolding query_lines asked_for
  counted n [] found short h k = rw (take_nil (suc n - found)) refl
  counted n (line ∷ rest) found (short, shorts) h k = rw short (
      counted_step n found (accept json q line) (asked_for rest) _ h k
        (λ j i. counted n rest j shorts h i))

  by_limit :
      (limit : ℤ) (ls : List String)
      → q.limit ≡ limit
      → All (λ line. leb max_event_line (len line) ≡ false) ls
      → query_lines json q ls 0 ≡ (limited limit (asked_for ls), none)
  by_limit (pos zero) ls e short =
      unlimited ls 0 short (λ k. ap (λ z. reaches z k) e ∙ ground arith)
  by_limit (pos (suc n)) ls e short =
      let whole : suc n - 0 ≡ suc n = omega arith in
      counted n ls 0 short (λ k. ap (λ z. reaches z k) e ∙ ground arith) (omega arith)
      ∙ ap (λ k. (take k (asked_for ls), none)) whole
  by_limit (negsuc n) ls e short =
      unlimited ls 0 short (λ k. ap (λ z. reaches z k) e ∙ ground arith)

  -- On a log without a line that is too long for the scanner, a query returns the events that its
  -- filters let through, in their order, up to its limit if that is positive, and no error.
  pub query_lem :
      (path : String) (ls : List String)
      → path ≢ ""
      → All (λ line. leb max_event_line (len line) ≡ false) ls
      → query json path (lines ls) q ≡ (limited q.limit (asked_for ls), none)
  unfolding query
  query_lem path ls h short =
      let named : (path == "") ≡ false = ground (arith, h, eq_iff path "") in
      rw named (by_limit q.limit ls refl short)
