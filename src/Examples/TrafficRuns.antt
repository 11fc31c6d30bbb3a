-- ===== src/Examples/TrafficRuns.antt =====
-- internal/server/server.go, several requests at once, run.
use datafog.Prelude.{
  ℕ, String, true, false, ◌≡◌, refl, Option, none, some, List, [], ◌∷◌, eqb, lookup, if◌then◌else◌,
}
use datafog.Strings.{ascii_tables, equal_fold, trim_space}
use datafog.Server.Decide.{Server, Response, decided, go, admit, look_up, handle_decide}
use datafog.Server.Concurrent.{
  arrived, answered, stopped, Traffic, update, advance, turn, pick, Reach, start, later,
}
use datafog.Server.Interleaving.{IsReplayed, replays_are_answers}
use datafog.Server.Race.{play, race_decides_both}
use datafog.Models.{DecideResponse}
use datafog.Examples.{sample_request}
use datafog.Examples.ServerRuns.{
  json, any_codec, moment, first_decided, fresh, post, permission, scanner, evaluated, not_cached,
}

-- the same request again and again
abbrev traffic : Traffic
traffic = record { server = fresh; phases = λ i. arrived (post sample_request) (moment "r7") }

abbrev answered_twice : Traffic
answered_twice = play ⦃u = ascii_tables⦄ json scanner any_codec (0 ∷ 0 ∷ 0 ∷ 1 ∷ []) traffic

reached : Reach ⦃u = ascii_tables⦄ json scanner any_codec traffic answered_twice
reached = later (later (later (later start (pick 0)) (pick 0)) (pick 0)) (pick 1)

was_replayed : answered_twice.phases 1 ≡ stopped (post sample_request) (decided permission)
unfolding turn update advance admit datafog.Server.Decide.is_json_content_type equal_fold trim_space
    look_up datafog.Server.Decide.hash_decide_request datafog.Server.Decide.hash_payload lookup
    datafog.Server.Decide.hash_decide_action datafog.Server.Decide.hash_decide_input
    datafog.Receipts.save datafog.Server.Decide.response_of datafog.Server.Decide.receipt_of
    datafog.Server.Decide.findings_of datafog.Receipts.new_receipt datafog.Server.Decide.remember
    datafog.Prelude.insert
was_replayed = rw evaluated refl

replayed_example :
    IsReplayed ⦃u = ascii_tables⦄ json answered_twice.phases (post sample_request) permission
replayed_example =
    replays_are_answers ⦃u = ascii_tables⦄ json scanner any_codec {x = traffic} refl
      (λ i. (post sample_request, moment "r7", refl)) reached 1 (post sample_request) permission
      was_replayed

abbrev second_permission : DecideResponse
second_permission = record permission { receipt_id = "r8" }

-- two requests with one key
abbrev both : Traffic
both = record {
  server = fresh;
  phases = λ i. arrived (post sample_request) (if eqb i 0 then moment "r7" else moment "r8");
}

abbrev alone : Response × Server
alone =
    handle_decide ⦃u = ascii_tables⦄ json scanner any_codec (moment "r7") fresh
      (post sample_request)

abbrev behind : Response × Server
behind =
    handle_decide ⦃u = ascii_tables⦄ json scanner any_codec (moment "r8")
      (record fresh { world = alone.1.world }) (post sample_request)

second_decided : behind.0 ≡ decided second_permission
unfolding handle_decide admit datafog.Server.Decide.is_json_content_type equal_fold trim_space
    datafog.Server.Decide.hash_decide_request datafog.Server.Decide.hash_payload lookup
    datafog.Server.Decide.hash_decide_action datafog.Server.Decide.hash_decide_input
    datafog.Receipts.save datafog.Server.Decide.response_of datafog.Server.Decide.receipt_of
    datafog.Server.Decide.findings_of datafog.Receipts.new_receipt datafog.Server.Decide.remember
second_decided = rw evaluated refl

race_example :
    let after = play ⦃u = ascii_tables⦄ json scanner any_codec (0 ∷ 1 ∷ 0 ∷ 1 ∷ 0 ∷ 1 ∷ []) both in
    (after.phases 0 ≡ answered sample_request permission)
    × (after.phases 1 ≡ answered sample_request second_permission)
    × (after.server.world ≡ behind.1.world)
race_example =
    race_decides_both ⦃u = ascii_tables⦄ json scanner any_codec both 0 1 (post sample_request)
      (post sample_request) (moment "r7") (moment "r8") sample_request sample_request permission
      second_permission refl refl refl not_cached not_cached first_decided second_decided
