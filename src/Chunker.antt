-- ===== src/Chunker.antt =====
-- app/services/chunker.py: pages become chunks that carry their place in the document.
pub mod Cuts
pub mod Windows
pub mod Coverage
pub mod Pages
pub mod Kept
use mini_nblm_proto.Prelude.{
  ℕ, zero, suc, ◌+◌, ◌-◌, min, max, Bool, false, ◌&&◌, not, Option, none, some, List, [], ◌∷◌, ◌++◌,
  map, ltb, leb, if◌then◌else◌, length, slice, is_empty, ◌==◌, ℕ-Eq, list-Eq, pair-Eq, option-Eq,
  String,
}
use mathlib.Core.Option
use mini_nblm_proto.Text.{Text, codes, strip}
use mini_nblm_proto.Json.{
  Json, null, str, arr, obj, Items, Fields, get, get_or, dict, select, append_field, nat, text,
}

pub record ParsedPage : Type 0 where
  pub page_number : ℕ
  pub text : Text
  pub metadata : Fields

pub record TextChunk : Type 0 where
  pub content : Text
  pub page_start : Option ℕ
  pub page_end : Option ℕ
  pub chunk_index : ℕ
  pub content_type : Text
  pub source_refs : Fields
  pub metadata : Fields

abbrev page_keys : List Text
page_keys =
    codes "width"
    ∷ codes "height"
    ∷ codes "text_chars"
    ∷ codes "image_count"
    ∷ codes "drawing_count"
    ∷ codes "table_count"
    ∷ codes "has_visual_content"
    ∷ codes "visual_evidence_risk"
    ∷ codes "text_only_incomplete"
    ∷ codes "language_hint"
    ∷ codes "text_extraction_mode"
    ∷ []

abbrev vision_keys : List Text
vision_keys =
    codes "status"
    ∷ codes "version"
    ∷ codes "model"
    ∷ codes "confidence"
    ∷ codes "repaired"
    ∷ codes "error_type"
    ∷ []

-- `_source_page_metadata`
unfoldable pub source_page_metadata : Fields → Fields
unfolding select get append_field
source_page_metadata metadata =
    let compact = select page_keys metadata in
    elim (get (codes "vision_caption") metadata) [
      | some (obj vision) ↦
          append_field (codes "vision_caption") (obj (select vision_keys vision)) compact
      | _ ↦ compact
    ]

abbrev source_refs_of : Json → ℕ → Json → Fields → Fields
source_refs_of document_id page modality page_metadata = dict (
    (codes "document_id", document_id)
    ∷ (codes "pages", arr (Items.cons (nat page) Items.nil))
    ∷ (codes "modality", modality)
    ∷ (codes "page_metadata", obj page_metadata)
    ∷ [])

abbrev hint : String → Fields → Json
hint key metadata = get_or (codes key) (text "unknown") metadata

-- The `TextChunk` of one window of a page's text.
unfoldable pub text_chunk : Json → ParsedPage → ℕ → Text → ℕ → ℕ → TextChunk
unfolding source_page_metadata get_or
text_chunk document_id page chunk_index content start end = record {
  content = content;
  page_start = some page.page_number;
  page_end = some page.page_number;
  chunk_index = chunk_index;
  content_type = codes "text";
  source_refs =
      source_refs_of document_id page.page_number (text "text")
        (source_page_metadata page.metadata);
  metadata = dict (
      (codes "char_start", nat start)
      ∷ (codes "char_end", nat end)
      ∷ (codes "modality", text "text")
      ∷ (codes "language_hint", hint "language_hint" page.metadata)
      ∷ (codes "visual_evidence_risk", hint "visual_evidence_risk" page.metadata)
      ∷ []);
}

-- The `TextChunk` of a page's completed visual caption. `vision.get(key)` gives `None` for a missing
-- key.
unfoldable pub vision_chunk : Json → ParsedPage → ℕ → Text → Fields → TextChunk
unfolding source_page_metadata get_or
vision_chunk document_id page chunk_index content vision = record {
  content = content;
  page_start = some page.page_number;
  page_end = some page.page_number;
  chunk_index = chunk_index;
  content_type = codes "vision_caption";
  source_refs =
      source_refs_of document_id page.page_number (text "vision_caption")
        (source_page_metadata page.metadata);
  metadata = dict (
      (codes "modality", text "vision_caption")
      ∷ (codes "vision_model", get_or (codes "model") null vision)
      ∷ (codes "vision_caption_version", get_or (codes "version") null vision)
      ∷ (codes "vision_confidence", get_or (codes "confidence") null vision)
      ∷ (codes "language_hint", hint "language_hint" page.metadata)
      ∷ (codes "visual_evidence_risk", hint "visual_evidence_risk" page.metadata)
      ∷ []);
}

-- `vision.get("status") == "completed"`
abbrev status_completed : Fields → Bool
status_completed vision = elim (get (codes "status") vision) [
  | some (str s) ↦ s == codes "completed"
  | _ ↦ false
]

-- The chunks made so far in a stretch of the loop, and the next `chunk_index`.
abbrev pub Made : Type 0
Made = List TextChunk × ℕ

abbrev add_chunks : List TextChunk → Option Made → Option Made
add_chunks here none = none
add_chunks here (some (later, next)) = some (here ++ later, next)

module _ (document_id : Json) (str_of : Json → Text) where
  -- `str(vision.get("search_text", "")).strip()`. `str(v)` of a value that is no text is the parameter
  -- `str_of`.
  unfoldable pub caption_content : Fields → Text
  unfolding get_or strip
  caption_content vision =
      strip (elim (get_or (codes "search_text") (str []) vision) [ str t ↦ t | v ↦ str_of v ])

  unfoldable pub caption_from : ParsedPage → ℕ → Json → List TextChunk
  unfolding vision_chunk caption_content get
  caption_from page chunk_index (obj vision) =
      let content = caption_content vision in
      if status_completed vision && not (is_empty content)
      then vision_chunk document_id page chunk_index content vision ∷ []
      else []
  caption_from page chunk_index _ = []

  -- The chunk of the page's visual caption, if there is one.
  unfoldable pub caption_chunks : ParsedPage → ℕ → List TextChunk
  unfolding caption_from get_or
  caption_chunks page chunk_index =
      caption_from page chunk_index (get_or (codes "vision_caption") (obj Fields.end) page.metadata)

module _ (chunk_size chunk_overlap : ℕ) (document_id : Json) where
  -- What one round of the window loop appends: nothing for a window of white space.
  unfoldable pub window_chunks : ParsedPage → Text → ℕ → ℕ → ℕ → List TextChunk
  unfolding text_chunk strip
  window_chunks page text chunk_index start end =
      let content = strip (slice start end text) in
      if is_empty content
      then []
      else text_chunk document_id page chunk_index content start end ∷ []

  -- The `while start < len(text)` loop on one page; `none` means that the fuel ran out. An appended
  -- chunk advances `chunk_index`. Python's `end - chunk_overlap` may be negative, and loses to
  -- `start + 1` then, as 0 does.
  unfoldable pub text_windows : ℕ → ParsedPage → Text → ℕ → ℕ → Option Made
  unfolding window_chunks
  text_windows zero page text start chunk_index = none
  text_windows (suc fuel) page text start chunk_index =
      let end = min (start + chunk_size) (length text) in
      let here = window_chunks page text chunk_index start end in
      let next = chunk_index + length here in
      let rest = text_windows fuel page text (max (end - chunk_overlap) (start + 1)) next in
      if ltb start (length text)
      then (if leb (length text) end then some (here, next) else add_chunks here rest)
      else some ([], chunk_index)

  module _ (str_of : Json → Text) where
    -- The caption's chunk comes behind the chunks of the text.
    abbrev pub add_captions : ParsedPage → Option Made → Option Made
    add_captions page none = none
    add_captions page (some (here, next)) =
        let captions = caption_chunks document_id str_of page next in
        some (here ++ captions, next + length captions)

    -- One round of `for page in pages`.
    unfoldable pub page_chunks : ParsedPage → ℕ → Option Made
    unfolding text_windows caption_chunks strip
    page_chunks page chunk_index =
        let text = strip page.text in
        let windows = text_windows (length text + 1) page text 0 chunk_index in
        add_captions page (if is_empty text then some ([], chunk_index) else windows)

    abbrev pub then_pages : Option Made → (ℕ → Option Made) → Option Made
    then_pages none later = none
    then_pages (some (here, next)) later = add_chunks here (later next)

    unfoldable pub pages_from : ℕ → List ParsedPage → Option Made
    unfolding page_chunks
    pages_from chunk_index [] = some ([], chunk_index)
    pages_from chunk_index (page ∷ pages) =
        then_pages (page_chunks page chunk_index) (λ next. pages_from next pages)

    -- `none` would mean that the fuel of a page's loop ran out, which does not happen.
    unfoldable pub chunk_pages : List ParsedPage → Option (List TextChunk)
    unfolding pages_from
    chunk_pages pages = Option.map (λ made. made.0) (pages_from 0 pages)
