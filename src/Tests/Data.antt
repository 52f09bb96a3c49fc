-- ===== src/Tests/Data.antt =====
-- The test data: two documents of one user, the built-in presets and services that answer.
use mini_nblm_proto.Prelude.{
  ℕ, true, false, Option, none, some, [], ◌∷◌, map, ℕ-Eq, list-Eq, pair-Eq, option-Eq, ok,
}
use mini_nblm_proto.Text.{Text, codes}
use mini_nblm_proto.Json.{end}
use mini_nblm_proto.Chunker.{ParsedPage}
use mini_nblm_proto.Presets.{built_in_presets}
use mini_nblm_proto.Database.{Db, Document, indexed, User, plain, RetrievalConfiguration}
use mini_nblm_proto.Documents.Processing.{Indexing}

abbrev pub owner : User
owner = record {
  id = 7;
  username = codes "kim";
  password_hash = [];
  role = plain;
  is_active = true;
  must_change_password = false;
}

abbrev document : ℕ → Document
document i = record {
  id = i;
  owner_id = 7;
  title = codes "manual";
  file_path = codes "7/manual.pdf";
  mime_type = none;
  status = indexed;
  error_message = none;
  indexed_preset_key = some (codes "standard");
  index_version = some 1;
  deleted = false;
}

abbrev pub first_document : Document
first_document = document 1

abbrev pub settings : RetrievalConfiguration
settings = record {
  active_preset_key = codes "standard";
  pending_preset_key = none;
  index_version = 1;
  maintenance_mode = false;
}

abbrev pub two_documents : Db
two_documents = record {
  users = owner ∷ [];
  auth_sessions = [];
  documents = document 1 ∷ document 2 ∷ [];
  pages = [];
  chunks = [];
  chat_sessions = [];
  messages = [];
  presets = built_in_presets;
  configuration = settings;
  jobs = [];
  next_user_id = 8;
  next_document_id = 3;
  next_job_id = 1;
}

abbrev pub one_page : ParsedPage
one_page = record { page_number = 1; text = codes " abc def "; metadata = end }

-- Every document has one page, and its vectors are empty.
abbrev pub services : Indexing
services = record {
  extract_pages = λ path. ok (one_page ∷ []);
  enrich_pages = λ user path pages. ok pages;
  embed_documents = λ texts. ok (map (λ t. []) texts);
  str_of = λ j. [];
}

abbrev pub uninterrupted : ℕ → Option Text
uninterrupted i = none
