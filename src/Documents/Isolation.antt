-- ===== src/Documents/Isolation.antt =====
-- Processing one document touches no other, and a failed run publishes none of its rows.
use mini_nblm_proto.Prelude.{
  ℕ, ◌≡◌, refl, sym, ◌∙◌, ◌≢◌, inl, inr, Bool, true, false, not, Option, none, some, List, [], ◌∷◌,
  ◌++◌, append-nil, arith, Option-cases, is_empty, All, ℕ-Eq, list-Eq, pair-Eq, option-Eq, String,
  Result, ok, err, ◌>>=◌, ◌>>◌, guard,
}
use mathlib.Core.Path.{subst}
use mini_nblm_proto.Text.{Text}
use mini_nblm_proto.Presets.{RetrievalPreset}
use mini_nblm_proto.Chunker.{ParsedPage, TextChunk}
use mini_nblm_proto.Database.{
  Db, Chunk, Embedding, Document, DocumentStatus, indexed, failed, processing,
}
use mini_nblm_proto.Database.Tables.{
  where_rows, find-update_other, where-append, where-none, where-delete_other,
}
use mini_nblm_proto.Documents.{
  is_document, chunk_of, page_of, set_status, set_index, get_document_by_id, page_rows, chunk_rows,
  update_status, update_index_metadata, delete_derived, delete_sessions_for_document,
}
use mini_nblm_proto.Documents.Processing.{
  Indexing, or_raise, document_chunks, embed_chunks, publish, index_document, fail_document,
  begin_processing, finish, process_found, process_document,
}
use mini_nblm_proto.Documents.Settled.{index_document-inv, get_document-id, process_document-eq}

-- All that the database holds of document `j`.
pub record SameDocument (j : ℕ) (a b : Db) : Type 0 where
  pub row : get_document_by_id a j ≡ get_document_by_id b j
  pub chunks : where_rows (chunk_of j) a.chunks ≡ where_rows (chunk_of j) b.chunks
  pub pages : where_rows (page_of j) a.pages ≡ where_rows (page_of j) b.pages

SameDocument-trans :
    (j : ℕ) (a b c : Db) → SameDocument j a b → SameDocument j b c → SameDocument j a c
SameDocument-trans j a b c h k = record {
  row = h.row ∙ k.row;
  chunks = h.chunks ∙ k.chunks;
  pages = h.pages ∙ k.pages;
}

SameDocument-refl : (j : ℕ) (a : Db) → SameDocument j a a
SameDocument-refl j a = record { row = refl; chunks = refl; pages = refl }

chunk_rows-other :
    (i j : ℕ) (cs : List TextChunk) (es : List Embedding) (rows : List Chunk)
    → j ≢ i
    → chunk_rows i cs es ≡ some rows
    → All (λ r. chunk_of j r ≡ false) rows
chunk_rows-other i j [] [] rows ne h = ground arith
chunk_rows-other i j [] (e ∷ es) rows ne h = cc
chunk_rows-other i j (c ∷ cs) [] rows ne h = cc
chunk_rows-other i j (c ∷ cs) (e ∷ es) rows ne h = elim (Option-cases (chunk_rows i cs es)) [
  | inl n ↦ ground arith
  | inr (rest, p) ↦ ground (arith, chunk_rows-other i j cs es rest ne p)
]

page_rows-other :
    (i j : ℕ) (ps : List ParsedPage) → j ≢ i → All (λ r. page_of j r ≡ false) (page_rows i ps)
page_rows-other i j [] ne = tt
page_rows-other i j (p ∷ ps) ne = (ground arith, page_rows-other i j ps ne)

or_raise-ok :
    {A : Type 0} (o : Option A) (message : String) {a : A} → or_raise o message ≡ ok a → o ≡ some a
or_raise-ok none message h = cc
or_raise-ok (some a) message h = cc

-- Inversion of the last steps of `embed_chunks`, over the results of the outside calls.
embedded :
    (tested : Result Text (Unit {0})) (r : Result Text (List Embedding))
    (f : List Embedding → Option (List Chunk)) (message : String) (rows : List Chunk)
    → (tested >> (r >>= λ embeddings. or_raise (f embeddings) message)) ≡ ok rows
    → (embeddings : List Embedding) × (f embeddings ≡ some rows)
embedded (ok u) (ok embeddings) f message rows h =
    (embeddings, or_raise-ok (f embeddings) message h)
embedded (ok u) (err e) f message rows h = cc
embedded (err e) r f message rows h = cc

-- The rows that embedding makes are the document's chunks with one embedding each.
pub embed_chunks-inv :
    (x : Indexing) (document : Document) (preset : RetrievalPreset) (pages : List ParsedPage)
    (rows : List Chunk)
    → embed_chunks x document preset pages ≡ ok rows
    → (embeddings : List Embedding) × (chunk_rows document.id
          (document_chunks x.str_of preset document.id pages)
          embeddings
        ≡ some rows)
unfolding embed_chunks
embed_chunks-inv x document preset pages rows h =
    let chunks = document_chunks x.str_of preset document.id pages in
    embedded (guard (not (is_empty chunks)) _) (x.embed_documents _) (chunk_rows document.id chunks)
      _ rows h

process_document-missing :
    (x : Indexing) (db : Db) (i : ℕ) (preset_key : Option Text) (index_version : Option ℕ)
    (reset : Bool)
    → get_document_by_id db i ≡ none
    → process_document x db i preset_key index_version reset ≡ (false, db)
unfolding process_document
process_document-missing x db i preset_key index_version reset e = rw (e, process_document)

module _ (i j : ℕ) (ne : j ≢ i) where
  is_document-other : (d : Document) → is_document j d ≡ true → is_document i d ≡ false
  is_document-other d h = ground arith

  update_status-other :
      (db : Db) (status : DocumentStatus) (message : Option Text)
      → SameDocument j (update_status db i status message) db
  unfolding update_status get_document_by_id
  update_status-other db status message = record {
    row =
        find-update_other (is_document j) (is_document i) (set_status status message) db.documents
          (λ d. refl) is_document-other;
    chunks = refl;
    pages = refl;
  }

  update_index_metadata-other :
      (db : Db) (key : Text) (version : ℕ)
      → SameDocument j (update_index_metadata db i key version) db
  unfolding update_index_metadata get_document_by_id
  update_index_metadata-other db key version = record {
    row =
        find-update_other (is_document j) (is_document i) (set_index key version) db.documents
          (λ d. refl) is_document-other;
    chunks = refl;
    pages = refl;
  }

  delete_derived-other : (db : Db) → SameDocument j (delete_derived db i) db
  unfolding delete_derived delete_sessions_for_document get_document_by_id
  delete_derived-other db = record {
    row = refl;
    chunks = where-delete_other (chunk_of j) (chunk_of i) db.chunks (λ r h. ground arith);
    pages = where-delete_other (page_of j) (page_of i) db.pages (λ r h. ground arith);
  }

  begin_processing-other :
      (db : Db) (reset : Bool) → SameDocument j (begin_processing db i reset) db
  unfolding begin_processing
  begin_processing-other db true =
      SameDocument-trans j _ _ _ (update_status-other (delete_derived db i) processing none)
        (delete_derived-other db)
  begin_processing-other db false = update_status-other db processing none

  fail_document-other :
      (db : Db) (message : Text) → SameDocument j (fail_document db i message).1 db
  unfolding fail_document
  fail_document-other db message = elim (Option-cases (get_document_by_id db i)) [
    | inl e ↦ rw (e, fail_document) (SameDocument-refl j db)
    | inr (d, e) ↦ rw (e, fail_document) (update_status-other db failed (some message))
  ]

  publish-other :
      (db : Db) (pages : List ParsedPage) (rows : List Chunk) (key : Text) (version : ℕ)
      → All (λ r. chunk_of j r ≡ false) rows
      → SameDocument j (publish db i pages rows key version) db
  unfolding publish
  publish-other db pages rows key version h =
      let with_rows : Db = record db {
        pages = db.pages ++ page_rows i pages;
        chunks = db.chunks ++ rows;
      } in
      let added : SameDocument j with_rows db = record {
        row = unfold get_document_by_id in refl;
        chunks =
            where-append (chunk_of j) db.chunks rows
            ∙ rw (where-none (chunk_of j) rows h, append-nil);
        pages =
            where-append (page_of j) db.pages (page_rows i pages)
            ∙ rw (
              where-none (page_of j) (page_rows i pages) (page_rows-other i j pages ne),
              append-nil,
            );
      } in
      SameDocument-trans j _ _ _
        (update_status-other (update_index_metadata with_rows i key version) indexed none)
        (SameDocument-trans j _ _ _ (update_index_metadata-other with_rows key version) added)

  embed_chunks-other :
      (x : Indexing) (document : Document) (preset : RetrievalPreset) (pages : List ParsedPage)
      (rows : List Chunk)
      → document.id ≡ i
      → embed_chunks x document preset pages ≡ ok rows
      → All (λ r. chunk_of j r ≡ false) rows
  embed_chunks-other x document preset pages rows same h =
      let (embeddings, made) = embed_chunks-inv x document preset pages rows h in
      chunk_rows-other document.id j (document_chunks x.str_of preset document.id pages) embeddings
        rows (λ e. ne (e ∙ same)) made

  finish-other :
      (x : Indexing) (db : Db) (document : Document) (preset : RetrievalPreset) (key : Text)
      (version : ℕ) (result : Result Text Db)
      → document.id ≡ i
      → index_document x db document preset key version ≡ result
      → SameDocument j (finish db i result).1 db
  unfolding finish
  finish-other x db document preset key version (err message) same h =
      fail_document-other db message
  finish-other x db document preset key version (ok db') same h =
      let (pages, rows, p, q, e) = index_document-inv x db document preset key version db' h in
      rw (e, same)
        (publish-other db pages rows key version
          (embed_chunks-other x document preset pages rows same q))

  process_found-other :
      (x : Indexing) (db : Db) (document : Document) (key : Text) (version : ℕ) (reset : Bool)
      (preset : Option RetrievalPreset)
      → document.id ≡ i
      → SameDocument j (process_found x db document key version reset preset).1 db
  unfolding process_found
  process_found-other x db document key version reset none same = rw same (fail_document-other db _)
  process_found-other x db document key version reset (some preset) same =
      let committed = begin_processing db i reset in
      subst
        (λ k.
          SameDocument j
            (finish (begin_processing db k reset) k
              (index_document x (begin_processing db k reset) document preset key version)).1
            db)
        (sym same)
        (SameDocument-trans j _ committed _
          (finish-other x committed document preset key version _ same refl)
          (begin_processing-other db reset))

-- Processing document `i` leaves the row, the chunks and the pages of every other document as they
-- were, whatever the outcome, the preset and the reset flag are.
pub process_document-other :
    (x : Indexing) (db : Db) (i j : ℕ) (preset_key : Option Text) (index_version : Option ℕ)
    (reset : Bool)
    → j ≢ i
    → SameDocument j (process_document x db i preset_key index_version reset).1 db
process_document-other x db i j preset_key index_version reset ne =
    elim (Option-cases (get_document_by_id db i)) [
      | inl e ↦
          rw (process_document-missing x db i preset_key index_version reset e)
            (SameDocument-refl j db)
      | inr (d, e) ↦
          rw (process_document-eq x db i preset_key index_version reset d e)
            (process_found-other i j ne x db d _ _ reset _ (get_document-id db i d e))
    ]
