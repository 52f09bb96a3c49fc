-- ===== src/Documents/Settled.antt =====
-- A processed document always ends `indexed` or `failed`.
use mini_nblm_proto.Prelude.{
  ℕ, ◌≡◌, refl, sym, ◌∙◌, Bool, true, false, Option, none, some, List, ◌++◌, arith, is_some, ℕ-Eq,
  list-Eq, pair-Eq, option-Eq, Result, ok, err,
}
use mathlib.Core.Option
use mathlib.Core.Path.{subst}
use mini_nblm_proto.Text.{Text}
use mini_nblm_proto.Presets.{RetrievalPreset}
use mini_nblm_proto.Chunker.{ParsedPage}
use mini_nblm_proto.Database.{Db, Chunk, Document, DocumentStatus, indexed, failed, processing}
use mini_nblm_proto.Database.Tables.{find-update_self, find-sat}
use mini_nblm_proto.Documents.{
  is_document, set_status, set_index, get_document_by_id, page_rows, update_status,
  update_index_metadata, get_preset, delete_derived, delete_sessions_for_document,
}
use mini_nblm_proto.Documents.Processing.{
  Indexing, index_document, read_pages, embed_chunks, publish, fail_document, begin_processing,
  finish, preset_in_use, process_found, process_document,
}

-- The document `i` after a change of its row.
pub get-update_status :
    (db : Db) (i : ℕ) (status : DocumentStatus) (message : Option Text)
    → get_document_by_id (update_status db i status message) i
      ≡ Option.map (set_status status message) (get_document_by_id db i)
unfolding get_document_by_id update_status
get-update_status db i status message =
    find-update_self (is_document i) (set_status status message) db.documents (λ x h. h)

get-update_index_metadata :
    (db : Db) (i : ℕ) (key : Text) (version : ℕ)
    → get_document_by_id (update_index_metadata db i key version) i
      ≡ Option.map (set_index key version) (get_document_by_id db i)
unfolding get_document_by_id update_index_metadata
get-update_index_metadata db i key version =
    find-update_self (is_document i) (set_index key version) db.documents (λ x h. h)

get-delete_derived :
    (db : Db) (i j : ℕ) → get_document_by_id (delete_derived db i) j ≡ get_document_by_id db j
unfolding get_document_by_id delete_derived delete_sessions_for_document
get-delete_derived db i j = refl

-- The document as the processing leaves it.
abbrev pub IsSettled : Bool → Text → ℕ → Option Document → Type 0
IsSettled done key version none = ⊥
IsSettled true key version (some d) =
    (d.status ≡ indexed)
    × (d.error_message ≡ none)
    × (d.indexed_preset_key ≡ some key)
    × (d.index_version ≡ some version)
IsSettled false key version (some d) = (d.status ≡ failed) × (is_some d.error_message ≡ true)

begin_processing-get :
    (db : Db) (i : ℕ) (reset : Bool)
    → get_document_by_id (begin_processing db i reset) i
      ≡ Option.map (set_status processing none) (get_document_by_id db i)
unfolding begin_processing
begin_processing-get db i true =
    get-update_status (delete_derived db i) i processing none ∙ rw (get-delete_derived db i i)
begin_processing-get db i false = get-update_status db i processing none

fail_document-eq :
    (db : Db) (i : ℕ) (message : Text) (d : Document)
    → get_document_by_id db i ≡ some d
    → fail_document db i message ≡ (false, update_status db i failed (some message))
unfolding fail_document
fail_document-eq db i message d e = rw (e, fail_document)

-- A result and the state behind it settle document `i`.
abbrev pub Settles : Text → ℕ → ℕ → Bool × Db → Type 0
Settles key version i (done, db) = IsSettled done key version (get_document_by_id db i)

fail_document-Settles :
    (db : Db) (i : ℕ) (message key : Text) (version : ℕ) (d : Document)
    → get_document_by_id db i ≡ some d
    → Settles key version i (fail_document db i message)
fail_document-Settles db i message key version d e =
    rw (fail_document-eq db i message d e, get-update_status db i failed (some message), e)
      (refl, refl)

publish-get :
    (db : Db) (i : ℕ) (pages : List ParsedPage) (rows : List Chunk) (key : Text) (version : ℕ)
    (d : Document)
    → get_document_by_id db i ≡ some d
    → get_document_by_id (publish db i pages rows key version) i
      ≡ some (set_status indexed none (set_index key version d))
unfolding publish
publish-get db i pages rows key version d e =
    let with_rows : Db = record db {
      pages = db.pages ++ page_rows i pages;
      chunks = db.chunks ++ rows;
    } in
    let found : get_document_by_id with_rows i ≡ some d = unfold get_document_by_id in e in
    rw (
      get-update_status (update_index_metadata with_rows i key version) i indexed none,
      get-update_index_metadata with_rows i key version,
      found,
    )

-- A successful run commits the pages that were read, and the chunks made of them.
pub index_document-inv :
    (x : Indexing) (db : Db) (document : Document) (preset : RetrievalPreset) (key : Text)
    (version : ℕ) (db' : Db)
    → index_document x db document preset key version ≡ ok db'
    → (pages : List ParsedPage) × (rows : List Chunk) × (read_pages x db document ≡ ok pages)
      × (embed_chunks x document preset pages ≡ ok rows)
      × (db' ≡ publish db document.id pages rows key version)
unfolding index_document
index_document-inv x db document preset key version db' h = ground arith

module _ (x : Indexing) (db : Db) (i : ℕ) (key : Text) (version : ℕ) (d : Document) where
  finish-Settles :
      (document : Document) (preset : RetrievalPreset) (result : Result Text Db)
      → document.id ≡ i
      → get_document_by_id db i ≡ some d
      → index_document x db document preset key version ≡ result
      → Settles key version i (finish db i result)
  unfolding finish
  finish-Settles document preset (err message) same found h =
      fail_document-Settles db i message key version d found
  finish-Settles document preset (ok db') same found h =
      let (pages, rows, p, q, e) = index_document-inv x db document preset key version db' h in
      rw (e, same, publish-get db i pages rows key version d found) (refl, refl, refl, refl)

pub get_document-id : (db : Db) (i : ℕ) (d : Document) → get_document_by_id db i ≡ some d → d.id ≡ i
unfolding get_document_by_id
get_document-id db i d h = let sat = find-sat (is_document i) db.documents d h in ground arith

process_found-Settles :
    (x : Indexing) (db : Db) (document : Document) (key : Text) (version : ℕ) (reset : Bool)
    (preset : Option RetrievalPreset)
    → get_document_by_id db document.id ≡ some document
    → Settles key version document.id (process_found x db document key version reset preset)
unfolding process_found
process_found-Settles x db document key version reset none found =
    fail_document-Settles db document.id _ key version document found
process_found-Settles x db document key version reset (some preset) found =
    let committed = begin_processing db document.id reset in
    finish-Settles x committed document.id key version (set_status processing none document)
      document preset _ refl (begin_processing-get db document.id reset ∙ rw found) refl

pub process_document-eq :
    (x : Indexing) (db : Db) (i : ℕ) (preset_key : Option Text) (index_version : Option ℕ)
    (reset : Bool) (d : Document)
    → get_document_by_id db i ≡ some d
    → process_document x db i preset_key index_version reset
      ≡ process_found x db d
          (preset_in_use x db preset_key index_version).0
          (preset_in_use x db preset_key index_version).1
          reset
          (get_preset db (preset_in_use x db preset_key index_version).0)
unfolding process_document
process_document-eq x db i preset_key index_version reset d found = rw (process_document, found)

-- Processing a document that is there always settles it, whatever parsing, captioning and embedding
-- do: with the result True it is `indexed` under the preset and index version in use and carries no
-- error, and with False it is `failed` and carries one. It is never left `processing`.
pub process_document-Settles :
    (x : Indexing) (db : Db) (i : ℕ) (preset_key : Option Text) (index_version : Option ℕ)
    (reset : Bool) (d : Document)
    → get_document_by_id db i ≡ some d
    → let (key, version) = preset_in_use x db preset_key index_version in
      Settles key version i (process_document x db i preset_key index_version reset)
process_document-Settles x db i preset_key index_version reset d found =
    let same = get_document-id db i d found in
    let (key, version) = preset_in_use x db preset_key index_version in
    let run = process_found x db d key version reset (get_preset db key) in
    rw (process_document-eq x db i preset_key index_version reset d found) (
      subst (λ j. Settles key version j run) same
        (process_found-Settles x db d key version reset (get_preset db key)
          (subst (λ j. get_document_by_id db j ≡ some d) (sym same) found)))
