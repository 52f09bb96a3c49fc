-- ===== src/Retrieval/Found.antt =====
-- The searches as a whole: their limits, and the rows they never lose.
use mini_nblm_proto.Prelude.{
  ℕ, ◌+◌, ◌≤◌, min, ◌≡◌, refl, ◌⊎◌, inl, inr, Bool, true, false, ◌&&◌, Option, none, some, List, [],
  ◌∷◌, arith, leb, nat_eq, if◌then◌else◌, or_else, Bool-cases, length, All, Any, All-imp, contains,
  Distinct, ℕ-Eq, list-Eq, pair-Eq, option-Eq,
}
use mathlib.Core.Path.{subst}
use mini_nblm_proto.Text.{Text}
use mini_nblm_proto.Retrieval.{ChunkRow, Scores}
use mini_nblm_proto.Retrieval.Fusion.{reciprocal_rank_fusion}
use mini_nblm_proto.Retrieval.Anchors.{first_rows}
use mini_nblm_proto.Retrieval.Merged.{
  ids, pages_of, merge_query_anchors-Distinct, merge_query_anchors_first,
  merge_page_anchors-Distinct,
}
use mini_nblm_proto.Retrieval.Search.{
  hybrid, Searches, hybrid_sets, search, hierarchical_pages, best_rank, best_page_score,
}

module _ {S : Type 0} (scores : Scores S) (searches : Searches S) where
  -- A hybrid search gives at most `top_k` chunks, none of them twice.
  pub search-Distinct :
      (question : Text) (top_k : ℕ)
      → Distinct (ids (search scores searches hybrid question top_k))
        × (length (search scores searches hybrid question top_k) ≤ top_k)
  unfolding search
  search-Distinct question top_k =
      let result_sets = hybrid_sets scores searches question top_k in
      merge_query_anchors-Distinct result_sets (reciprocal_rank_fusion scores result_sets top_k)
        top_k

  -- With a limit of at least three, a hybrid search keeps the chunk that the dense, the keyword or the
  -- substring search ranks first, whatever the fused scores are.
  pub search_first :
      (question : Text) (top_k k : ℕ)
      → 3 ≤ top_k
      → contains (ids (first_rows (hybrid_sets scores searches question top_k))) k ≡ true
      → contains (ids (search scores searches hybrid question top_k)) k ≡ true
  unfolding search hybrid_sets
  search_first question top_k k enough first =
      let result_sets = hybrid_sets scores searches question top_k in
      merge_query_anchors_first result_sets (reciprocal_rank_fusion scores result_sets top_k) top_k
        k (omega arith) first

  -- The hierarchical retriever looks at no more than 12 pages, none of them twice.
  pub hierarchical_pages-Distinct :
      (casefold : Text → Text) (question : Text) (queries : List Text)
      → Distinct (pages_of (hierarchical_pages scores searches casefold question queries))
        × (length (hierarchical_pages scores searches casefold question queries) ≤ 12)
  unfolding hierarchical_pages
  hierarchical_pages-Distinct casefold question queries =
      merge_page_anchors-Distinct _ _ 12 (omega arith)

-- Whether the chunk overlaps the page of the entry.
abbrev is_overlapping : ℕ → ℕ → ℕ → (ℕ × ℕ) × ℕ → Bool
is_overlapping document start end ((d, page), rank) =
    nat_eq d document && (leb start page && leb page end)

module _ (document start end : ℕ) where
  abbrev IsAtMost : ℕ → (ℕ × ℕ) × ℕ → Type 0
  IsAtMost rank entry = (is_overlapping document start end entry ≡ false) ⊎ (rank ≤ entry.1)

  abbrev IsRankOf : ℕ → (ℕ × ℕ) × ℕ → Type 0
  IsRankOf rank entry = (is_overlapping document start end entry ≡ true) × (entry.1 ≡ rank)

  -- `rank` is that of an overlapping page, and no overlapping page has a smaller one; with no rank, no
  -- page overlaps.
  abbrev pub IsBest : List ((ℕ × ℕ) × ℕ) → Option ℕ → Type 0
  IsBest page_rank none = All (λ entry. is_overlapping document start end entry ≡ false) page_rank
  IsBest page_rank (some rank) = All (IsAtMost rank) page_rank × Any (IsRankOf rank) page_rank

  weaken : (r r' : ℕ) → r' ≤ r → (entry : (ℕ × ℕ) × ℕ) → IsAtMost r entry → IsAtMost r' entry
  weaken r r' h entry (inl e) = inl e
  weaken r r' h entry (inr e) = inr (omega arith)

  IsBest-step :
      (entry : (ℕ × ℕ) × ℕ) (page_rank : List ((ℕ × ℕ) × ℕ)) (b : Bool) (rest : Option ℕ)
      → is_overlapping document start end entry ≡ b
      → IsBest page_rank rest
      → IsBest
          (entry ∷ page_rank)
          (if b then some (elim rest [ none ↦ entry.1 | some other ↦ min entry.1 other ]) else rest)
  IsBest-step entry page_rank true none e h = (
    (
      inr (omega arith),
      All-imp (λ x. is_overlapping document start end x ≡ false) (IsAtMost entry.1) (λ x q. inl q)
          page_rank h,
    ),
    inl (e, refl),
  )
  IsBest-step entry page_rank true (some other) e h = (
    (
      inr (omega arith),
      All-imp (IsAtMost other) (IsAtMost (min entry.1 other))
          (weaken other (min entry.1 other) (omega arith)) page_rank h.0,
    ),
    elim (Bool-cases (leb entry.1 other)) [
      | inl q ↦ inl (e, ground arith)
      | inr q ↦ inr (subst (λ r. Any (IsRankOf r) page_rank) (ground arith) h.1)
    ],
  )
  IsBest-step entry page_rank false none e h = (e, h)
  IsBest-step entry page_rank false (some rank) e h = ((inl e, h.0), inr h.1)

  best_rank-IsBest :
      (page_rank : List ((ℕ × ℕ) × ℕ)) → IsBest page_rank (best_rank document start end page_rank)
  unfolding best_rank
  best_rank-IsBest [] = tt
  best_rank-IsBest (entry ∷ page_rank) =
      IsBest-step entry page_rank _ (best_rank document start end page_rank) refl
        (best_rank-IsBest page_rank)

module _ {S : Type 0} (scores : Scores S) (document : ℕ) (page_rank : List ((ℕ × ℕ) × ℕ)) where
  -- The score of the pages from `start` to `end`: 0.0 where none of them is ranked, and else
  -- `1 / (60 + rank)` for the smallest of their ranks.
  abbrev pub IsScoreOf : ℕ → ℕ → S → Type 0
  IsScoreOf start end score =
      (All (λ entry. is_overlapping document start end entry ≡ false) page_rank
        × (score ≡ scores.zero_score))
      ⊎ ((rank : ℕ) × All (IsAtMost document start end rank) page_rank
          × Any (IsRankOf document start end rank) page_rank
          × (score ≡ scores.one_over (60 + rank)))

  -- The score of a chunk by its first and last page. With no first page it is 0.0; with no last page the
  -- chunk lies on its first one.
  abbrev pub IsPageScore : Option ℕ → Option ℕ → S → Type 0
  IsPageScore none last score = score ≡ scores.zero_score
  IsPageScore (some first) none score = IsScoreOf first first score
  IsPageScore (some first) (some last) score = IsScoreOf first last score

  ranked_score :
      (start end : ℕ) (best : Option ℕ)
      → IsBest document start end page_rank best
      → IsScoreOf start end
          (elim best [ none ↦ scores.zero_score | some rank ↦ scores.one_over (60 + rank) ])
  ranked_score start end none h = inl (h, refl)
  ranked_score start end (some rank) h = inr (rank, h.0, h.1, refl)

  page_score :
      (first last : Option ℕ)
      → IsPageScore first last (elim first [
        | none ↦ scores.zero_score
        | some start ↦ elim (best_rank document start (or_else last start) page_rank) [
          | none ↦ scores.zero_score
          | some rank ↦ scores.one_over (60 + rank)
        ]
      ])
  page_score none last = refl
  page_score (some first) none =
      ranked_score first first _ (best_rank-IsBest document first first page_rank)
  page_score (some first) (some last) =
      ranked_score first last _ (best_rank-IsBest document first last page_rank)

-- A chunk is scored by the best ranked page of its document that it overlaps: `1 / (60 + rank)` for the
-- smallest rank of such a page, and 0.0 when the chunk has no first
-- page, or none of its pages is ranked. A chunk with no last page lies on its first page.
pub best_page_score-IsPageScore :
    {S : Type 0} (scores : Scores S) (chunk : ChunkRow) (page_rank : List ((ℕ × ℕ) × ℕ))
    → IsPageScore scores chunk.document_id page_rank chunk.page_start chunk.page_end
        (best_page_score scores chunk page_rank)
unfolding best_page_score
best_page_score-IsPageScore scores chunk page_rank =
    page_score scores chunk.document_id page_rank chunk.page_start chunk.page_end
