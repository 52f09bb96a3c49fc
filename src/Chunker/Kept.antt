-- ===== src/Chunker/Kept.antt =====
-- `chunk_pages` loses nothing of a page's text but white space.
use mini_nblm_proto.Prelude.{
  ℕ, ◌+◌, ◌<◌, ◌≡◌, inl, inr, true, false, Option, none, some, List, [], ◌∷◌, ◌++◌, arith,
  Bool-cases, is_some, length, get_elem?, is_empty, Any, Any-append_left, ℕ-Eq, list-Eq, pair-Eq,
  option-Eq,
}
use mathlib.Core.Option
use mathlib.Core.Option.{some-injective}
use mathlib.Core.Path.{subst}
use mini_nblm_proto.Text.{Text, strip, is_space}
use mini_nblm_proto.Json.{Json}
use mini_nblm_proto.Chunker.{
  ParsedPage, TextChunk, Made, add_captions, then_pages, caption_chunks, page_chunks, pages_from,
  chunk_pages,
}
use mini_nblm_proto.Chunker.Cuts.{
  Covers, AnyMade, add_chunks-AnyMade_left, add_chunks-AnyMade_right, Ends-is_some,
}
use mini_nblm_proto.Chunker.Pages.{FromPages, pages_from-Ends}
use mini_nblm_proto.Chunker.Coverage.{text_windows-Covers, get_elem?-empty}

module _ (size overlap : ℕ) (document_id : Json) (str_of : Json → Text) where
  abbrev made_pages : ℕ → List ParsedPage → Option Made
  made_pages k pages = pages_from size overlap document_id str_of k pages

  module _ (P : TextChunk → Type 0) where
    add_captions-AnyMade :
        (page : ParsedPage) (windows : Option Made)
        → AnyMade P windows
        → AnyMade P (add_captions size overlap document_id str_of page windows)
    add_captions-AnyMade page none h = h
    add_captions-AnyMade page (some (here, next)) h =
        Any-append_left P here (caption_chunks document_id str_of page next) h

    then_pages-AnyMade_left :
        (first : Option Made) (later : ℕ → Option Made)
        → ((k : ℕ) → is_some (later k) ≡ true)
        → AnyMade P first
        → AnyMade P (then_pages size overlap document_id str_of first later)
    then_pages-AnyMade_left none later t h = h
    then_pages-AnyMade_left (some (here, next)) later t h =
        add_chunks-AnyMade_left P here (later next) (t next) h

    then_pages-AnyMade_right :
        (first : Option Made) (later : ℕ → Option Made)
        → is_some (then_pages size overlap document_id str_of first later) ≡ true
        → ((k : ℕ) → AnyMade P (later k))
        → AnyMade P (then_pages size overlap document_id str_of first later)
    then_pages-AnyMade_right none later t h = cc
    then_pages-AnyMade_right (some (here, next)) later t h =
        add_chunks-AnyMade_right P here (later next) (h next)

  pages_from-is_some :
      (k : ℕ) (pages : List ParsedPage) → 0 < size → is_some (made_pages k pages) ≡ true
  pages_from-is_some k pages p =
      Ends-is_some (FromPages size overlap document_id str_of pages) k (made_pages k pages)
        (pages_from-Ends size overlap document_id str_of k pages p)

  module _ (page : ParsedPage) (post : List ParsedPage) (i c : ℕ) (p : 0 < size) where
    abbrev Here : TextChunk → Type 0
    Here = Covers size document_id page (strip page.text) i

    page_chunks-Covers :
        (k : ℕ)
        → get_elem? (strip page.text) i ≡ some c
        → is_space c ≡ false
        → AnyMade Here (page_chunks size overlap document_id str_of page k)
    unfolding page_chunks
    page_chunks-Covers k e n = elim (Bool-cases (is_empty (strip page.text))) [
      | inl blank ↦ absurd (get_elem?-empty (strip page.text) i c blank e)
      | inr full ↦ rw full (
          add_captions-AnyMade Here page _ (
            text_windows-Covers size overlap document_id page (strip page.text)
              (length (strip page.text) + 1) 0 k i c p (omega arith) (omega arith) e n))
    ]

    pages_from-Covers :
        (pre : List ParsedPage) (k : ℕ)
        → get_elem? (strip page.text) i ≡ some c
        → is_space c ≡ false
        → AnyMade Here (made_pages k (pre ++ page ∷ post))
    unfolding pages_from
    pages_from-Covers [] k e n =
        then_pages-AnyMade_left Here _ _ (λ next. pages_from-is_some next post p)
          (page_chunks-Covers k e n)
    pages_from-Covers (q ∷ pre) k e n =
        then_pages-AnyMade_right Here _ _ (pages_from-is_some k (q ∷ pre ++ page ∷ post) p)
          (λ next. pages_from-Covers pre next e n)

    -- For a positive chunk size, every character of a page's stripped text that is not white space
    -- lies in the window of some chunk that `chunk_pages` makes for that page, whatever pages stand
    -- before and after it and whatever the overlap is.
    pub chunk_pages-Covers :
        (pre : List ParsedPage) (chunks : List TextChunk)
        → chunk_pages size overlap document_id str_of (pre ++ page ∷ post) ≡ some chunks
        → get_elem? (strip page.text) i ≡ some c
        → is_space c ≡ false
        → Any Here chunks
    unfolding chunk_pages
    chunk_pages-Covers pre chunks h e n =
        result (made_pages 0 (pre ++ page ∷ post)) (pages_from-Covers pre 0 e n) h
      where
        result :
            (o : Option Made)
            → AnyMade Here o
            → Option.map (λ made. made.0) o ≡ some chunks
            → Any Here chunks
        result none a q = absurd a
        result (some made) a q = subst (Any Here) (some-injective made.0 chunks q) a
