-- ===== src/Coverage/Planned.antt =====
-- The judgements that the code accepts speak of planned goals only.
use mini_nblm_proto.Prelude.{
  ℕ, ◌≡◌, refl, Bool, true, false, ◌||◌, Option, none, some, List, [], ◌∷◌, ◌++◌, if◌then◌else◌,
  is_some, is_empty, All, ◌==◌, ℕ-Eq, list-Eq, pair-Eq, option-Eq, Result, ok, err,
}
use mini_nblm_proto.Text.{Text, codes}
use mini_nblm_proto.Evidence.{RetrievedChunk}
use mini_nblm_proto.Retrieval.Queries.{EvidenceGoal}
use mini_nblm_proto.Coverage.Response.{
  CoverageError, Assessment, Reading, find_last, parse_coverage_response,
}
use mini_nblm_proto.Coverage.Request.{
  Chat, assess_evidence_coverage, repair_assessment, coverage_request,
}
use mini_nblm_proto.Prompt.Sections.{newline}
use mini_nblm_proto.Coverage.Lookup.{find_last-is_some}
use mini_nblm_proto.Coverage.Parsed.{AreJudged, parse_coverage_response-AreJudged}

-- Every result speaks of a planned goal.
abbrev pub Planned : List EvidenceGoal → Assessment → Type 0
Planned goals assessment =
    All
      (λ result.
        is_some (find_last (λ (g : EvidenceGoal). g.goal_id == result.goal_id) goals) ≡ true)
      assessment

-- The judgements that the code accepts speak of planned goals.
abbrev pub AllPlanned : List EvidenceGoal → Option Assessment → Type 0
AllPlanned goals none = Unit
AllPlanned goals (some a) = Planned goals a

AllPlanned-if :
    (goals : List EvidenceGoal) (b : Bool) (a : Option Assessment)
    → AllPlanned goals a
    → AllPlanned goals (if b then none else a)
AllPlanned-if goals true a h = tt
AllPlanned-if goals false a h = h

module _ {S : Type 0} (x : Reading) (goals : List EvidenceGoal) where
  Planned-judged :
      (chunks : List (RetrievedChunk S)) (rest : List EvidenceGoal) (a : Assessment)
      → AreJudged x goals chunks rest a
      → Planned goals a
  Planned-judged chunks [] [] h = tt
  Planned-judged chunks [] (c ∷ a) h = elim h [ ]
  Planned-judged chunks (goal ∷ rest) [] h = elim h [ ]
  Planned-judged chunks (goal ∷ rest) (c ∷ a) h = (
    find_last-is_some _ _ goals (λ g q. ((list-Eq {A = ℕ}).eqb_iff g.goal_id c.goal_id).1 q.0)
        h.1.planned,
    Planned-judged chunks rest a h.2,
  )

  accepted :
      (chunks : List (RetrievedChunk S)) (response : Text) (r : Result CoverageError Assessment)
      → parse_coverage_response x goals chunks response ≡ r
      → AllPlanned goals (elim r [ err e ↦ none | ok assessment ↦ some assessment ])
  accepted chunks response (err e) h = tt
  accepted chunks response (ok a) h =
      Planned-judged chunks goals a (parse_coverage_response-AreJudged x goals chunks response a h)

  module _ (chat : Chat) (chunks : List (RetrievedChunk S)) where
    repair_assessment-AllPlanned :
        (prompt response : Text)
        → AllPlanned goals (repair_assessment x chat prompt response goals chunks)
    unfolding repair_assessment
    repair_assessment-AllPlanned prompt response =
        answered
          (chat (prompt ++ newline ++ newline ++ codes "Invalid response:" ++ newline ++ response))
      where
        answered :
            (answer : Option Text)
            → AllPlanned goals (elim answer [
              | none ↦ none
              | some repaired ↦ elim (parse_coverage_response x goals chunks repaired) [
                | err e ↦ none
                | ok assessment ↦ some assessment
              ]
            ])
        answered none = tt
        answered (some repaired) =
            accepted chunks repaired (parse_coverage_response x goals chunks repaired) refl

    first_parsed :
        (prompt response : Text) (r : Result CoverageError Assessment)
        → parse_coverage_response x goals chunks response ≡ r
        → AllPlanned goals (elim r [
          | err e ↦ repair_assessment x chat prompt response goals chunks
          | ok assessment ↦ some assessment
        ])
    first_parsed prompt response (err e) h = repair_assessment-AllPlanned prompt response
    first_parsed prompt response (ok a) h = accepted chunks response (ok a) h

    first_answered :
        (prompt : Text) (answer : Option Text)
        → AllPlanned goals (elim answer [
          | none ↦ none
          | some response ↦ elim (parse_coverage_response x goals chunks response) [
            | err e ↦ repair_assessment x chat prompt response goals chunks
            | ok assessment ↦ some assessment
          ]
        ])
    first_answered prompt none = tt
    first_answered prompt (some response) =
        first_parsed prompt response (parse_coverage_response x goals chunks response) refl

    pub assess-AllPlanned : AllPlanned goals (assess_evidence_coverage x chat goals chunks)
    unfolding assess_evidence_coverage
    assess-AllPlanned =
        let prompt = coverage_request goals chunks in
        AllPlanned-if goals (is_empty goals || is_empty chunks) _
          (first_answered prompt (chat prompt))
