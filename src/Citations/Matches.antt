-- ===== src/Citations/Matches.antt =====
-- The citations of a text. What the regular expressions match is a parameter.
use mini_nblm_proto.Prelude.{
  ℕ, zero, suc, ◌-◌, Bool, false, ◌&&◌, ◌||◌, not, Option, none, some, List, [], ◌∷◌, ◌++◌, nat_eq,
  if◌then◌else◌, or_else, get_elem?, is_empty, any, contains, ℕ-Eq, list-Eq, pair-Eq, option-Eq,
}
use mini_nblm_proto.Text.{Text, codes, str_nat}
use mini_nblm_proto.Evidence.{RetrievedChunk}

-- A match of `CITATION_ITEM_PATTERN`: its text, and `int` of its groups.
pub record CitationItem : Type 0 where
  pub matched : Text
  pub source : ℕ
  pub start : ℕ
  pub end_page : Option ℕ

-- A match of `BARE_SOURCE_PATTERN`.
pub record BareSource : Type 0 where
  pub matched : Text
  pub source : ℕ

pub record Patterns : Type 0 where
  -- the bodies of the matches of `CITATION_GROUP_PATTERN`, and the text without the matches
  pub groups : Text → List Text
  pub without_groups : Text → Text
  -- the matches of `CITATION_ITEM_PATTERN`, the text without them, and with each replaced
  pub items : Text → List CitationItem
  pub without_items : Text → Text
  pub replace_items : (CitationItem → Text) → Text → Text
  pub replace_bare : (BareSource → Text) → Text → Text
  pub has_source_token : Text → Bool
  pub without_separators : Text → Text
  pub without_chunk_suffix : Text → Text
  pub without_markdown_prefix : Text → Text
  pub without_brackets : Text → Text
  pub word_count : Text → ℕ
  -- the matches of `CLAIM_SEGMENT_PATTERN`
  pub segments : Text → List Text
  pub is_no_source : Text → Bool
  pub has_hangul : Text → Bool
  pub strip_fence : Text → Text
  pub strip_heading : Text → Text
  pub casefold : Text → Text
  pub splitlines : Text → List Text

abbrev pub source_page : ℕ → Text → Text
source_page source page = codes "Source " ++ str_nat source ++ codes ", Page " ++ page

module _ {S : Type 0} where
  -- `chunks[source - 1]` where `0 <= source - 1 < len(chunks)`
  abbrev pub source_chunk : List (RetrievedChunk S) → ℕ → Option (RetrievedChunk S)
  source_chunk chunks zero = none
  source_chunk chunks (suc index) = get_elem? chunks index

  unfoldable pub page_matches : RetrievedChunk S → ℕ → Option ℕ → Bool
  page_matches chunk cited_start none = elim chunk.page_start [
    | none ↦ false
    | some first ↦ nat_eq cited_start first
  ]
  page_matches chunk cited_start (some cited_end) = elim chunk.page_start [
    | none ↦ false
    | some first ↦ nat_eq cited_start first && nat_eq cited_end (or_else chunk.page_end first)
  ]

  -- An item that cites the pages of its source.
  unfoldable pub is_valid_item : List (RetrievedChunk S) → CitationItem → Bool
  unfolding page_matches
  is_valid_item chunks item = elim (source_chunk chunks item.source) [
    | none ↦ false
    | some chunk ↦ page_matches chunk item.start item.end_page
  ]

  -- The loop of `valid_cited_source_indexes`, with the indexes seen.
  unfoldable pub indexes_from : List (RetrievedChunk S) → List ℕ → List CitationItem → List ℕ
  unfolding is_valid_item
  indexes_from chunks seen [] = []
  indexes_from chunks seen (item ∷ items) =
      let index = item.source - 1 in
      let skipped = indexes_from chunks seen items in
      let more = indexes_from chunks (index ∷ seen) items in
      if not (is_valid_item chunks item) || contains seen index then skipped else index ∷ more

  -- A page range in an answer.
  unfoldable pub chunk_page : RetrievedChunk S → Option Text
  unfolding str_nat
  chunk_page chunk = elim chunk.page_start [
    | none ↦ none
    | some first ↦ elim chunk.page_end [
      | none ↦ some (str_nat first)
      | some end_page ↦ some (
          if nat_eq end_page first
          then str_nat first
          else str_nat first ++ codes "-" ++ str_nat end_page)
    ]
  ]

  unfoldable pub citation_with_chunk_page : List (RetrievedChunk S) → CitationItem → Text
  unfolding chunk_page
  citation_with_chunk_page chunks item = elim (source_chunk chunks item.source) [
    | none ↦ item.matched
    | some chunk ↦ elim (chunk_page chunk) [
      | none ↦ item.matched
      | some page ↦ source_page item.source page
    ]
  ]

  -- `add_page`
  unfoldable pub add_page : List (RetrievedChunk S) → BareSource → Text
  add_page chunks bare = elim (source_chunk chunks bare.source) [
    | none ↦ bare.matched
    | some chunk ↦ elim chunk.page_start [
      | none ↦ bare.matched
      | some page ↦ source_page bare.source (str_nat page)
    ]
  ]

  module _ (x : Patterns) (chunks : List (RetrievedChunk S)) where
    -- The items of all groups, in order.
    abbrev pub citation_item_matches : List Text → List CitationItem
    citation_item_matches [] = []
    citation_item_matches (body ∷ bodies) = x.items body ++ citation_item_matches bodies

    unfoldable pub valid_cited_source_indexes : Text → List ℕ
    unfolding indexes_from
    valid_cited_source_indexes answer =
        indexes_from chunks [] (citation_item_matches (x.groups answer))

    -- A group with nothing but valid items.
    unfoldable pub is_invalid_group : Text → Bool
    unfolding is_valid_item
    is_invalid_group body =
        is_empty (x.items body)
        || not (is_empty (x.without_separators (x.without_items body)))
        || any (λ item. not (is_valid_item chunks item)) (x.items body)

    unfoldable pub has_invalid_citation : Text → Bool
    unfolding is_invalid_group
    has_invalid_citation answer =
        x.has_source_token (x.without_groups answer) || any is_invalid_group (x.groups answer)

    unfoldable pub normalize_structural_citations : Text → Text
    unfolding add_page citation_with_chunk_page
    normalize_structural_citations answer = x.without_chunk_suffix (
        x.replace_items (citation_with_chunk_page chunks) (x.replace_bare (add_page chunks) answer))
