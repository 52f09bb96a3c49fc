-- ===== src/Documents/Processing.antt =====
-- app/services/document_processor.py: a document is parsed, captioned, chunked and embedded.
use mini_nblm_proto.Prelude.{
  ℕ, Bool, true, false, not, Option, none, some, List, [], ◌++◌, map, nat_eq, if◌then◌else◌,
  or_else, is_empty, ℕ-Eq, list-Eq, pair-Eq, option-Eq, String, Result, ok, err, ◌>>=◌, ◌>>◌, guard,
}
use mini_nblm_proto.Prelude.Int.{pos}
use mini_nblm_proto.Text.{Text, codes}
use mini_nblm_proto.Json.{Json}
use mini_nblm_proto.Chunker.{ParsedPage, TextChunk, chunk_pages}
use mini_nblm_proto.Presets.{RetrievalPreset}
use mini_nblm_proto.Database.{Db, Chunk, Document, User, indexed, processing, failed, Embedding}
use mini_nblm_proto.Database.Tables.{find}
use mini_nblm_proto.Documents.{
  get_document_by_id, update_status, update_index_metadata, get_preset, delete_derived, page_rows,
  chunk_rows,
}

-- What indexing calls outside this code: PDF parsing, captioning with the owner's endpoint and the
-- embedding service. Each may raise, with a message.
pub record Indexing : Type 0 where
  pub extract_pages : Text → Result Text (List ParsedPage)
  pub enrich_pages : User → Text → List ParsedPage → Result Text (List ParsedPage)
  pub embed_documents : List Text → Result Text (List Embedding)
  pub str_of : Json → Text

abbrev pub or_raise {ℓ} : {A : Type ℓ} → Option A → String → Result Text A
or_raise none message = err (codes message)
or_raise (some a) message = ok a

-- The `except` branch: the transaction is rolled back to `committed`, and the reason is kept.
unfoldable pub fail_document : Db → ℕ → Text → Bool × Db
fail_document committed i message = elim (get_document_by_id committed i) [
  | none ↦ (false, committed)
  | some document ↦ (false, update_status committed i failed (some message))
]

-- What is committed before the work begins.
unfoldable pub begin_processing : Db → ℕ → Bool → Db
begin_processing db i reset_existing =
    let cleared = if reset_existing then delete_derived db i else db in
    update_status cleared i processing none

-- The end of `process_document`: the transaction is committed, or the exception is handled.
unfoldable pub finish : Db → ℕ → Result Text Db → Bool × Db
finish committed i (ok db) = (true, db)
finish committed i (err message) = fail_document committed i message

-- The rows that a successful run commits together.
unfoldable pub publish : Db → ℕ → List ParsedPage → List Chunk → Text → ℕ → Db
publish db i pages rows preset_key index_version =
    let with_rows : Db = record db {
      pages = db.pages ++ page_rows i pages;
      chunks = db.chunks ++ rows;
    } in
    update_status (update_index_metadata with_rows i preset_key index_version) i indexed none

-- The chunks of a document's pages. `chunk_pages` always ends with a list (Chunker/Pages).
unfoldable pub document_chunks :
    (Json → Text) → RetrievalPreset → ℕ → List ParsedPage → List TextChunk
document_chunks str_of preset i pages =
    or_else
      (chunk_pages preset.chunk_size_chars preset.chunk_overlap_chars (Json.int (pos i)) str_of
        pages)
      []

module _ (x : Indexing) where
  -- Parsing and captioning, up to the test for pages.
  unfoldable pub read_pages : Db → Document → Result Text (List ParsedPage)
  read_pages db document = do
    extracted ← x.extract_pages document.file_path
    owner ← or_raise (find (λ u. nat_eq u.id document.owner_id) db.users) "Document owner not found"
    pages ← x.enrich_pages owner document.file_path extracted
    guard (not (is_empty pages)) (codes "No pages found in PDF")
    ok pages

  -- Chunking and embedding, up to the rows of `create_chunks`.
  unfoldable pub embed_chunks :
      Document → RetrievalPreset → List ParsedPage → Result Text (List Chunk)
  embed_chunks document preset pages = do
    let chunks = document_chunks x.str_of preset document.id pages
    guard (not (is_empty chunks)) (codes "No searchable text or visual evidence found in PDF")
    embeddings ← x.embed_documents (map (λ (c : TextChunk). c.content) chunks)
    or_raise (chunk_rows document.id chunks embeddings) "zip() arguments differ in length"

  -- The work between the two commits of `process_document`, in one transaction. The pages are written
  -- before the chunks are made: a failure in between rolls them back.
  unfoldable pub index_document : Db → Document → RetrievalPreset → Text → ℕ → Result Text Db
  index_document db document preset preset_key index_version = do
    pages ← read_pages db document
    rows ← embed_chunks document preset pages
    ok (publish db document.id pages rows preset_key index_version)

  -- Both the preset and the index version are the caller's, or both the configuration's.
  abbrev pub preset_in_use : Db → Option Text → Option ℕ → Text × ℕ
  preset_in_use db (some key) (some version) = (key, version)
  preset_in_use db _ _ = (db.configuration.active_preset_key, db.configuration.index_version)

  -- `process_document` once the document is there, with the preset if it is known.
  unfoldable pub process_found :
      Db → Document → Text → ℕ → Bool → Option RetrievalPreset → Bool × Db
  process_found db document key version reset_existing none =
      fail_document db document.id (codes "Unknown retrieval preset: " ++ key)
  process_found db document key version reset_existing (some preset) =
      let committed = begin_processing db document.id reset_existing in
      finish committed document.id (index_document committed document preset key version)

  -- `process_document`: the result, and the committed state.
  unfoldable pub process_document : Db → ℕ → Option Text → Option ℕ → Bool → Bool × Db
  process_document db i preset_key index_version reset_existing =
      let (key, version) = preset_in_use db preset_key index_version in
      elim (get_document_by_id db i) [
        | none ↦ (false, db)
        | some document ↦ process_found db document key version reset_existing (get_preset db key)
      ]
