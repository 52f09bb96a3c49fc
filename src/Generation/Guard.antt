-- ===== src/Generation/Guard.antt =====
-- app/services/evidence_guard.py: a question about a figure needs a caption of it. The pages and the
-- reason of a refusal, which the answer does not use, are left out; the regular expressions are
-- parameters.
use mini_nblm_proto.Prelude.{
  ℕ, zero, suc, ◌+◌, ◌-◌, Bool, true, false, ◌&&◌, ◌||◌, not, none, some, List, [], ◌∷◌, ◌++◌,
  if◌then◌else◌, or_else, take, is_empty, any, all, ◌==◌, contains, ℕ-Eq, list-Eq, pair-Eq,
  option-Eq,
}
use mini_nblm_proto.Text.{Text, codes}
use mini_nblm_proto.Json.{Json, end, obj, Fields, get_null, get_or, is_truthy, show_json, str}
use mini_nblm_proto.Evidence.{RetrievedChunk}

pub record Figures : Type 0 where
  pub names_visual : Text → Bool
  pub asks_exact : Text → Bool
  -- the numbers in the matches of `PAGE_PATTERNS`
  pub page_numbers : Text → List ℕ
  -- `str` of a value that is no string
  pub str_of : Json → Text

-- `set(range(start, end + 1))`
abbrev pub range_from : ℕ → ℕ → List ℕ
range_from start zero = []
range_from start (suc count) = start ∷ range_from (start + 1) count

abbrev is_wanted : List ℕ → ℕ → Bool
is_wanted requested page = is_empty requested || contains requested page

module _ {S : Type 0} (x : Figures) where
  unfoldable pub covered_pages : RetrievedChunk S → List ℕ
  covered_pages chunk = elim chunk.page_start [
    | none ↦ []
    | some first ↦ range_from first (or_else chunk.page_end first + 1 - first)
  ]

  unfoldable pub page_metadata : RetrievedChunk S → Fields
  page_metadata chunk = elim (get_or (codes "page_metadata") (obj end) chunk.source_refs) [
    | obj d ↦ d
    | _ ↦ end
  ]

  unfoldable pub visual_risk : RetrievedChunk S → Text
  unfolding page_metadata
  visual_risk chunk =
      show_json x.str_of
        (get_or (codes "visual_evidence_risk") (str (codes "unknown")) (page_metadata chunk))

  unfoldable pub has_visual_content : RetrievedChunk S → Bool
  unfolding visual_risk page_metadata
  has_visual_content chunk =
      is_truthy (get_null (codes "has_visual_content") (page_metadata chunk))
      || contains (codes "empty_text" ∷ codes "visual_heavy" ∷ codes "mixed" ∷ [])
          (visual_risk chunk)

  -- The pages of the chunks that a test accepts.
  abbrev accepted_pages : (RetrievedChunk S → Bool) → List (RetrievedChunk S) → List ℕ
  accepted_pages accepts [] = []
  accepted_pages accepts (chunk ∷ chunks) =
      let rest = accepted_pages accepts chunks in
      if accepts chunk then covered_pages chunk ++ rest else rest

  abbrev candidates_of : List ℕ → List (RetrievedChunk S) → List (RetrievedChunk S)
  candidates_of requested [] = []
  candidates_of requested (chunk ∷ chunks) =
      let rest = candidates_of requested chunks in
      if any (is_wanted requested) (covered_pages chunk) || is_empty requested
      then chunk ∷ rest
      else rest

  abbrev is_caption : RetrievedChunk S → Bool
  is_caption chunk = chunk.content_type == codes "vision_caption"

  abbrev is_heavy : RetrievedChunk S → Bool
  is_heavy chunk = contains (codes "empty_text" ∷ codes "visual_heavy" ∷ []) (visual_risk chunk)

  -- `assess_evidence_answerability(question, chunks).answerable`
  unfoldable pub is_answerable : Text → List (RetrievedChunk S) → Bool
  unfolding covered_pages has_visual_content visual_risk
  is_answerable question chunks =
      let requested = x.page_numbers question in
      let candidates = candidates_of requested chunks in
      let visual_pages = accepted_pages has_visual_content candidates in
      let captioned_pages = accepted_pages is_caption candidates in
      let is_captioned = any (is_wanted requested) captioned_pages in
      let risky =
        any (λ page. is_wanted requested page && not (contains captioned_pages page))
          visual_pages in
      if not (x.names_visual question) || not (x.asks_exact question)
      then true
      else if not (is_empty requested) && is_empty candidates
      then false
      else if not (is_empty requested) && risky
      then false
      else not (
          is_empty requested
          && not (is_empty candidates)
          && not is_captioned
          && all is_heavy (take 5 candidates))
