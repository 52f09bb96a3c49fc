-- ===== src/Chunker/Pages.antt =====
-- `chunk_pages` as a whole: it ends, numbers all chunks in order, and takes every chunk from a page.
use mini_nblm_proto.Prelude.{
  ℕ, ◌+◌, ◌<◌, ◌≡◌, refl, ◌⊎◌, inl, inr, true, false, ◌&&◌, not, Option, none, some, List, [], ◌∷◌,
  arith, Bool-cases, length, is_empty, All, Any, length-append, All-append, All-imp, ℕ-Eq, list-Eq,
  pair-Eq, option-Eq,
}
use mathlib.Core.Option
use mini_nblm_proto.Text.{Text, codes, strip}
use mini_nblm_proto.Json.{Json, Fields, get, nat}
use mini_nblm_proto.Json
use mini_nblm_proto.Chunker.{
  ParsedPage, TextChunk, Made, vision_chunk, status_completed, caption_content, caption_from,
  caption_chunks, add_captions, then_pages, page_chunks, pages_from, chunk_pages,
}
use mini_nblm_proto.Chunker.Cuts.{IsNumbered, Cut, Ends, add_chunks-Ends, IsNumbered-append}
use mini_nblm_proto.Chunker.Windows.{text_windows-Ends}

module _ (size overlap : ℕ) (document_id : Json) (str_of : Json → Text) where
  -- `c` is the chunk of a completed caption of the page.
  pub record IsCaption (page : ParsedPage) (c : TextChunk) : Type 0 where
    pub vision : Fields
    pub found :
        Json.get_or (codes "vision_caption") (Json.obj Json.end) page.metadata ≡ Json.obj vision
    pub completed : status_completed vision ≡ true
    pub made :
        c
        ≡ vision_chunk document_id page c.chunk_index
            (caption_content document_id str_of vision)
            vision
    pub nonempty : is_empty c.content ≡ false

  -- `c` is a window of the page's stripped text, or its caption.
  abbrev pub FromPage : TextChunk → ParsedPage → Type 0
  FromPage c page = Cut size document_id page (strip page.text) c ⊎ IsCaption page c

  abbrev pub FromPages : List ParsedPage → TextChunk → Type 0
  FromPages pages c = Any (FromPage c) pages

  abbrev FromOne : ParsedPage → TextChunk → Type 0
  FromOne page c = FromPage c page

  caption_from-lem :
      (page : ParsedPage) (k : ℕ) (found : Json)
      → Json.get_or (codes "vision_caption") (Json.obj Json.end) page.metadata ≡ found
      → IsNumbered k (caption_from document_id str_of page k found)
        × All (FromOne page) (caption_from document_id str_of page k found)
  unfolding caption_from vision_chunk
  caption_from-lem page k (Json.obj vision) e =
      elim (Bool-cases
        (status_completed vision && not (is_empty (caption_content document_id str_of vision)))) [
          | inr h ↦ rw h (tt, tt)
          | inl h ↦ rw h (
            (refl, tt),
            (
              inr (record {
                vision = vision;
                found = e;
                completed = ground arith;
                made = refl;
                nonempty = ground arith;
              }),
              tt,
            ),
          )
        ]
  caption_from-lem page k _ e = (tt, tt)

  caption_chunks-lem :
      (page : ParsedPage) (k : ℕ)
      → IsNumbered k (caption_chunks document_id str_of page k)
        × All (FromOne page) (caption_chunks document_id str_of page k)
  unfolding caption_chunks
  caption_chunks-lem page k = caption_from-lem page k _ refl

  add_captions-Ends :
      (page : ParsedPage) (k : ℕ) (windows : Option Made)
      → Ends (Cut size document_id page (strip page.text)) k windows
      → Ends (FromOne page) k (add_captions size overlap document_id str_of page windows)
  add_captions-Ends page k none h = h
  add_captions-Ends page k (some (here, next)) h =
      let e : next ≡ k + length here = h.0.next in
      let captions = caption_chunks document_id str_of page next in
      let caption = caption_chunks-lem page next in
      (
        record {
          numbered = IsNumbered-append k here captions h.0.numbered (rw (← e) caption.0);
          next = omega (arith, length-append here captions, e);
        },
        All-append (FromOne page) here captions
            (All-imp (Cut size document_id page (strip page.text)) (FromOne page) (λ c cut. inl cut)
              here h.1)
            caption.1,
      )

  pub page_chunks-Ends :
      (page : ParsedPage) (k : ℕ)
      → 0 < size
      → Ends (FromOne page) k (page_chunks size overlap document_id str_of page k)
  unfolding page_chunks
  page_chunks-Ends page k p = elim (Bool-cases (is_empty (strip page.text))) [
    | inl e ↦
        rw e (
          add_captions-Ends page k (some ([], k))
            (record { numbered = tt; next = omega arith }, tt))
    | inr e ↦ rw e (
        add_captions-Ends page k _ (
          text_windows-Ends size overlap document_id page (strip page.text)
            (length (strip page.text) + 1) 0 k p (omega arith) (omega arith)))
  ]

  Ends-imp :
      (pages : List ParsedPage) (page : ParsedPage) (k : ℕ) (o : Option Made)
      → Ends (FromPages pages) k o
      → Ends (FromPages (page ∷ pages)) k o
  Ends-imp pages page k none h = h
  Ends-imp pages page k (some made) h =
      (h.0, All-imp (FromPages pages) (FromPages (page ∷ pages)) (λ c found. inr found) made.0 h.1)

  then_pages-Ends :
      (page : ParsedPage) (pages : List ParsedPage) (k : ℕ) (first : Option Made)
      (later : ℕ → Option Made)
      → Ends (FromOne page) k first
      → ((next : ℕ) → Ends (FromPages pages) next (later next))
      → Ends (FromPages (page ∷ pages)) k (then_pages size overlap document_id str_of first later)
  then_pages-Ends page pages k none later h g = h
  then_pages-Ends page pages k (some (here, next)) later h g =
      let e : next ≡ k + length here = h.0.next in
      add_chunks-Ends (FromPages (page ∷ pages)) here k (later next) h.0.numbered
        (All-imp (FromOne page) (FromPages (page ∷ pages)) (λ c one. inl one) here h.1)
        (rw (← e) (Ends-imp pages page next (later next) (g next)))

  -- The loop over the pages ends, and makes chunks that are numbered in order and come from the pages.
  pub pages_from-Ends :
      (k : ℕ) (pages : List ParsedPage)
      → 0 < size
      → Ends (FromPages pages) k (pages_from size overlap document_id str_of k pages)
  unfolding pages_from
  pages_from-Ends k [] p = (record { numbered = tt; next = omega arith }, tt)
  pages_from-Ends k (page ∷ pages) p =
      then_pages-Ends page pages k _ _ (page_chunks-Ends page k p)
        (λ next. pages_from-Ends next pages p)

  -- For a positive chunk size `chunk_pages` ends with a list of chunks, numbered 0, 1, 2, … in order,
  -- and each chunk is a stripped, non-empty window of at most `size` characters of some page's text,
  -- or the non-empty caption of some page.
  pub chunk_pages-total :
      (pages : List ParsedPage)
      → 0 < size
      → (chunks : List TextChunk) × (chunk_pages size overlap document_id str_of pages
          ≡ some chunks)
        × IsNumbered 0 chunks
        × All (FromPages pages) chunks
  unfolding chunk_pages
  chunk_pages-total pages p =
      result (pages_from size overlap document_id str_of 0 pages) (pages_from-Ends 0 pages p)
    where
      result :
          (o : Option Made)
          → Ends (FromPages pages) 0 o
          → (chunks : List TextChunk) × (Option.map (λ made. made.0) o ≡ some chunks)
            × IsNumbered 0 chunks
            × All (FromPages pages) chunks
      result none h = absurd h
      result (some made) h = (made.0, refl, h.0.numbered, h.1)
