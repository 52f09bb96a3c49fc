-- ===== src/Citations/Validated.antt =====
-- What an answer can end as when its citations are validated.
use mini_nblm_proto.Prelude.{
  ◌≡◌, refl, true, false, ◌||◌, not, Option, none, some, List, [], ◌∷◌, ◌++◌, map, arith,
  if◌then◌else◌, or_else, is_empty, All, Any, All-Any_self, Distinct, ℕ-Eq, list-Eq, pair-Eq,
  option-Eq, branches,
}
use mini_nblm_proto.Text.{Text, strip, join}
use mini_nblm_proto.Json.{Json}
use mini_nblm_proto.Evidence.{RetrievedChunk}
use mini_nblm_proto.Prelude.Dedup.{keep_new-wanted, keep_new-Distinct, All-keep_new}
use mini_nblm_proto.Prompt.Sections.{newline}
use mini_nblm_proto.Citations.{
  build_validation_request, cites, claims_of, grounded_claim_fallback, grounded_claims, is_grounded,
  judge_repair, limitation_ko, limitation_en, normalize_repaired_answer, strip_answer_heading,
  validate_answer_citations,
}
use mini_nblm_proto.Citations.Matches.{
  Patterns, has_invalid_citation, normalize_structural_citations,
}

module _ {S : Type 0} (x : Patterns) (str_of : Json → Text) (chunks : List (RetrievedChunk S)) where
  -- Claims of the answer that are all grounded, at least one, and a note that the rest is not covered.
  pub record IsGroundedSubset (question answer result : Text) : Type 0 where
    pub claims : List Text
    pub some_claims : is_empty claims ≡ false
    pub grounded : All (λ claim. is_grounded x str_of chunks claim ≡ true) claims
    pub from_answer : All (λ claim. Any (λ c. c ≡ claim) (claims_of x (x.splitlines answer))) claims
    pub once : Distinct (map (λ claim. x.casefold (strip claim)) claims)
    pub shown :
        result
        ≡ join newline (
            map strip claims
            ++ [] ∷ (if x.has_hangul question then limitation_ko else limitation_en) ∷ [])

  -- What `answer` may become.
  pub data Outcome (question answer : Text) : Text → Type 0 where
    kept : Outcome question answer answer
    refused : (result : Text) → x.is_no_source result ≡ true → Outcome question answer result
    repaired :
        (result : Text) → is_grounded x str_of chunks result ≡ true → Outcome question answer result
    subset :
        (result : Text) → IsGroundedSubset question answer result → Outcome question answer result

  grounded_claims-All :
      (answer : Text)
      → All
          (λ claim. is_grounded x str_of chunks claim ≡ true)
          (grounded_claims x str_of chunks answer)
  unfolding grounded_claims
  grounded_claims-All answer =
      keep_new-wanted (λ claim. x.casefold (strip claim)) (is_grounded x str_of chunks) []
        (claims_of x (x.splitlines answer))

  grounded_claims-from :
      (answer : Text)
      → All
          (λ claim. Any (λ c. c ≡ claim) (claims_of x (x.splitlines answer)))
          (grounded_claims x str_of chunks answer)
  unfolding grounded_claims
  grounded_claims-from answer =
      All-keep_new (λ claim. x.casefold (strip claim)) (is_grounded x str_of chunks) _ []
        (claims_of x (x.splitlines answer)) (All-Any_self (claims_of x (x.splitlines answer)))

  grounded_claims-Distinct :
      (answer : Text)
      → Distinct (map (λ claim. x.casefold (strip claim)) (grounded_claims x str_of chunks answer))
  unfolding grounded_claims
  grounded_claims-Distinct answer =
      keep_new-Distinct (λ claim. x.casefold (strip claim)) (is_grounded x str_of chunks) []
        (claims_of x (x.splitlines answer))

  -- The fallback: nothing, or grounded claims of the answer.
  abbrev SubsetOrNone : Text → Text → Option Text → Type 0
  SubsetOrNone question answer none = Unit
  SubsetOrNone question answer (some result) = IsGroundedSubset question answer result

  grounded_subset :
      (question answer : Text) (claims : List Text)
      → All (λ claim. is_grounded x str_of chunks claim ≡ true) claims
      → All (λ claim. Any (λ c. c ≡ claim) (claims_of x (x.splitlines answer))) claims
      → Distinct (map (λ claim. x.casefold (strip claim)) claims)
      → SubsetOrNone question answer (
          if is_empty (map strip claims)
          then none
          else some (
              join newline (
                map strip claims
                ++ [] ∷ (if x.has_hangul question then limitation_ko else limitation_en) ∷ [])))
  grounded_subset question answer [] h f d = tt
  grounded_subset question answer (claim ∷ claims) h f d = record {
    claims = claim ∷ claims;
    some_claims = refl;
    grounded = h;
    from_answer = f;
    once = d;
    shown = refl;
  }

  fallback_subset :
      (question answer : Text)
      → SubsetOrNone question answer (grounded_claim_fallback x str_of chunks question answer)
  unfolding grounded_claim_fallback
  fallback_subset question answer =
      grounded_subset question answer (grounded_claims x str_of chunks answer)
        (grounded_claims-All answer) (grounded_claims-from answer) (grounded_claims-Distinct answer)

  refused-Outcome :
      (question answer repair : Text) (fallback : Option Text)
      → x.is_no_source repair ≡ true
      → SubsetOrNone question answer fallback
      → Outcome question answer (or_else fallback repair)
  refused-Outcome question answer repair none e h = refused repair e
  refused-Outcome question answer repair (some result) e h = subset result h

  judge_repair-Outcome :
      (question answer repair : Text)
      → Outcome question answer (judge_repair x str_of chunks question answer repair)
  unfolding judge_repair
  judge_repair-Outcome question answer repair =
      let P = Outcome question answer in
      branches P (is_empty repair) (λ e. kept)
        (λ e.
          branches P (x.is_no_source repair)
            (λ no. refused-Outcome question answer repair _ no (fallback_subset question answer))
            (λ yes.
              branches P
                (has_invalid_citation x chunks repair || not (cites x str_of chunks repair))
                (λ bad. kept) (λ good. repaired repair (ground (arith, good)))))

  -- Whatever the model answers, the result is one of four: the draft with its page numbers put right; a
  -- refusal that begins with NO_SOURCE; a text that cites only pages of the given chunks and cites at
  -- least one; or claims of that draft, at least one and none twice, that each do so, one below the other, with
  -- the note that the rest is not covered.
  pub validate_answer_citations-Outcome :
      (chat : Text → Option Text) (question draft : Text)
      → Outcome question
          (normalize_structural_citations x chunks (strip_answer_heading x draft))
          (validate_answer_citations x str_of chunks chat question draft)
  unfolding validate_answer_citations
  validate_answer_citations-Outcome chat question draft =
      let answer = normalize_structural_citations x chunks (strip_answer_heading x draft) in
      branches (Outcome question answer) _ (λ e. kept)
        (λ e. answered answer (chat (build_validation_request x str_of chunks question answer)))
    where
      answered :
          (answer : Text) (response : Option Text)
          → Outcome question answer (elim response [
            | none ↦ answer
            | some r ↦ judge_repair x str_of chunks question answer (normalize_repaired_answer x r)
          ])
      answered answer none = kept
      answered answer (some r) =
          judge_repair-Outcome question answer (normalize_repaired_answer x r)
