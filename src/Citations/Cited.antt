-- ===== src/Citations/Cited.antt =====
-- The sources that an answer is found to cite, and what an answer can end as.
use mini_nblm_proto.Prelude.{
  ℕ, zero, suc, ◌-◌, ◌<◌, ◌≡◌, refl, inl, inr, true, false, ◌||◌, not, Option, none, some, List, [],
  ◌∷◌, arith, length, get_elem?, All, Any, All-imp, contains, Distinct, contains_head, ℕ-Eq,
  list-Eq, pair-Eq, option-Eq, branches,
}
use mini_nblm_proto.Text.{Text}
use mini_nblm_proto.Evidence.{RetrievedChunk}
use mini_nblm_proto.Citations.Matches.{
  CitationItem, Patterns, citation_item_matches, indexes_from, is_valid_item, page_matches,
  source_chunk, valid_cited_source_indexes,
}

module _ {S : Type 0} (chunks : List (RetrievedChunk S)) where
  -- An item cites the source with the index, and its pages.
  abbrev pub Cites : ℕ → CitationItem → Type 0
  Cites index item = (item.source ≡ suc index) × (is_valid_item chunks item ≡ true)

  pub record AreCited (seen : List ℕ) (items : List CitationItem) (indexes : List ℕ) : Type 0 where
    pub once : Distinct indexes
    pub fresh : (k : ℕ) → contains seen k ≡ true → contains indexes k ≡ false
    pub in_range : All (λ index. index < length chunks) indexes
    pub found : All (λ index. Any (Cites index) items) indexes
    pub complete :
        All
          (λ item.
            (not (is_valid_item chunks item)
              || contains seen (item.source - 1)
              || contains indexes (item.source - 1))
            ≡ true)
          items

  get_elem?-lt :
      {A : Type 0} (xs : List A) (n : ℕ) {y : A} → get_elem? xs n ≡ some y → n < length xs
  get_elem?-lt [] n e = cc
  get_elem?-lt (x ∷ xs) zero e = omega arith
  get_elem?-lt (x ∷ xs) (suc n) e = omega (arith, get_elem?-lt xs n e)

  source_found :
      (source start : ℕ) (end_page : Option ℕ) (found : Option (RetrievedChunk S))
      → source_chunk chunks source ≡ found
      → elim found [ none ↦ false | some chunk ↦ page_matches chunk start end_page ] ≡ true
      → (source ≡ suc (source - 1)) × (source - 1 < length chunks)
  source_found source start end_page none e h = ground (arith, h)
  source_found zero start end_page (some chunk) e h = ground (arith, e)
  source_found (suc index) start end_page (some chunk) e h =
      let lt = get_elem?-lt chunks index e in (omega arith, omega (arith, lt))

  valid_in_range :
      (item : CitationItem)
      → is_valid_item chunks item ≡ true
      → (item.source ≡ suc (item.source - 1)) × (item.source - 1 < length chunks)
  unfolding is_valid_item
  valid_in_range item h = source_found item.source item.start item.end_page _ refl h

  later_items :
      (item : CitationItem) (items : List CitationItem) (indexes : List ℕ)
      → All (λ index. Any (Cites index) items) indexes
      → All (λ index. Any (Cites index) (item ∷ items)) indexes
  later_items item items indexes h = All-imp _ _ (λ index a. inr a) indexes h

  skipped-AreCited :
      (seen : List ℕ) (item : CitationItem) (items : List CitationItem) (indexes : List ℕ)
      → (not (is_valid_item chunks item) || contains seen (item.source - 1)) ≡ true
      → AreCited seen items indexes
      → AreCited seen (item ∷ items) indexes
  skipped-AreCited seen item items indexes e r = record {
    once = r.once;
    fresh = r.fresh;
    in_range = r.in_range;
    found = later_items item items indexes r.found;
    complete = (ground (arith, e), r.complete);
  }

  seen_later :
      (seen : List ℕ) (index : ℕ) (items : List CitationItem) (indexes : List ℕ)
      → All
          (λ item.
            (not (is_valid_item chunks item)
              || contains (index ∷ seen) (item.source - 1)
              || contains indexes (item.source - 1))
            ≡ true)
          items
      → All
          (λ item.
            (not (is_valid_item chunks item)
              || contains seen (item.source - 1)
              || contains (index ∷ indexes) (item.source - 1))
            ≡ true)
          items
  seen_later seen index items indexes h = All-imp _ _ (λ item e. ground (arith, e)) items h

  cited-AreCited :
      (seen : List ℕ) (item : CitationItem) (items : List CitationItem) (indexes : List ℕ)
      → (not (is_valid_item chunks item) || contains seen (item.source - 1)) ≡ false
      → AreCited ((item.source - 1) ∷ seen) items indexes
      → AreCited seen (item ∷ items) ((item.source - 1) ∷ indexes)
  cited-AreCited seen item items indexes e r =
      let index = item.source - 1 in
      let valid : is_valid_item chunks item ≡ true = ground (arith, e) in
      let range = valid_in_range item valid in
      record {
        once = (r.fresh index (contains_head index seen), r.once);
        fresh = λ k h. ground (arith, h, e, r.fresh k, ℕ-Eq.eqb_iff index k);
        in_range = (range.1, r.in_range);
        found = (inl (range.0, valid), later_items item items indexes r.found);
        complete = (
          ground (arith, contains_head index indexes),
          seen_later seen index items indexes r.complete,
        );
      }

  indexes_from-AreCited :
      (seen : List ℕ) (items : List CitationItem)
      → AreCited seen items (indexes_from chunks seen items)
  unfolding indexes_from
  indexes_from-AreCited seen [] = record {
    once = tt;
    fresh = λ k h. refl;
    in_range = tt;
    found = tt;
    complete = tt;
  }
  indexes_from-AreCited seen (item ∷ items) =
      branches (AreCited seen (item ∷ items))
        (not (is_valid_item chunks item) || contains seen (item.source - 1))
        (λ e. skipped-AreCited seen item items _ e (indexes_from-AreCited seen items))
        (λ e.
          cited-AreCited seen item items _ e
            (indexes_from-AreCited ((item.source - 1) ∷ seen) items))

  -- The sources that an answer is found to cite are positions of its chunks, each listed once; each is
  -- cited by an item of the answer with the pages of that chunk; and every such item's source is listed.
  pub valid_cited_source_indexes-AreCited :
      (x : Patterns) (answer : Text)
      → Distinct (valid_cited_source_indexes x chunks answer)
        × All (λ index. index < length chunks) (valid_cited_source_indexes x chunks answer)
        × All
            (λ index. Any (Cites index) (citation_item_matches x chunks (x.groups answer)))
            (valid_cited_source_indexes x chunks answer)
        × All
            (λ item.
              (not (is_valid_item chunks item)
                || contains (valid_cited_source_indexes x chunks answer) (item.source - 1))
              ≡ true)
            (citation_item_matches x chunks (x.groups answer))
  unfolding valid_cited_source_indexes
  valid_cited_source_indexes-AreCited x answer =
      let r = indexes_from-AreCited [] (citation_item_matches x chunks (x.groups answer)) in
      (r.once, r.in_range, r.found, All-imp _ _ (λ item e. ground (arith, e)) _ r.complete)
