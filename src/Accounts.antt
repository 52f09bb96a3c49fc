-- ===== src/Accounts.antt =====
-- app/services/auth_service.py with app/repositories/user_repository.py: accounts and their sessions.
pub mod Password
pub mod Revoked
pub mod Erased
use mini_nblm_proto.Prelude.{
  ℕ, ◌+◌, Bool, true, false, ◌&&◌, ◌||◌, not, Option, none, some, List, [], ◌∷◌, ◌++◌, map, ltb,
  nat_eq, if◌then◌else◌, or_else, is_empty, any, ◌==◌, contains, ℕ-Eq, list-Eq, pair-Eq, option-Eq,
  Result, ok, err, ◌>>=◌, ◌>>◌, guard,
}
use mini_nblm_proto.Text.{Text, strip}
use mini_nblm_proto.Database.{
  Db, User, plain, AuthSession, Document, ChatSession, ChatMessage, Chunk, DocumentPage, ReindexJob,
}
use mini_nblm_proto.Database.Tables.{find, where_rows, delete_rows, update_rows}
use mini_nblm_proto.Documents.{is_active_status}
use mini_nblm_proto.Accounts.Password.{PasswordError, Characters, validate_secure_password}

-- Hashing and the service's settings. `verify` may raise, and then gives nothing.
pub record Security : Type 0 where
  pub characters : Characters
  pub hash : Text → Text
  pub verify : Text → Text → Option Bool
  pub dummy_password_hash : Text
  pub hash_session_token : Text → Text
  -- `auth_session_ttl_hours`, in the units of the clock
  pub session_ttl : ℕ

pub data AuthError : Type 0 where
  username_exists : AuthError
  invalid_credentials : AuthError
  invalid_current_password : AuthError
  password_policy : PasswordError → AuthError
  password_reuse : AuthError
  account_confirmation : AuthError
  account_deletion_conflict : AuthError
  user_not_found : AuthError
  self_password_reset : AuthError

abbrev pub is_user : ℕ → User → Bool
is_user i u = nat_eq u.id i

abbrev pub has_username : Text → User → Bool
has_username username u = u.username == username

unfoldable pub get_user_by_username : Db → Text → Option User
get_user_by_username db username = find (has_username username) db.users

unfoldable pub update_user : Db → ℕ → (User → User) → Db
update_user db i f = record db { users = update_rows (is_user i) f db.users }

-- `set_user_password_hash` and `set_password_change_required`
abbrev pub with_password : Text → Bool → User → User
with_password value required u = record u { password_hash = value; must_change_password = required }

abbrev pub session_of_user : ℕ → AuthSession → Bool
session_of_user i s = nat_eq s.user_id i

unfoldable pub delete_auth_sessions_for_user : Db → ℕ → Db
delete_auth_sessions_for_user db i = record db {
  auth_sessions = delete_rows (session_of_user i) db.auth_sessions;
}

abbrev pub other_session : ℕ → Text → AuthSession → Bool
other_session i current_token_hash s =
    nat_eq s.user_id i && not (s.token_hash == current_token_hash)

unfoldable pub delete_other_auth_sessions : Db → ℕ → Text → Db
delete_other_auth_sessions db i current_token_hash = record db {
  auth_sessions = delete_rows (other_session i current_token_hash) db.auth_sessions;
}

-- The session that a token opens at `now` for the user.
abbrev pub opens : Text → ℕ → User → AuthSession → Bool
opens token_hash now u s =
    nat_eq s.user_id u.id && s.token_hash == token_hash && ltb now s.expires_at

unfoldable pub get_user_by_session_token_hash : Db → Text → ℕ → Option User
get_user_by_session_token_hash db token_hash now =
    find (λ u. u.is_active && any (opens token_hash now u) db.auth_sessions) db.users

abbrev pub requested : ℕ → ReindexJob → Bool
requested i job = elim job.requested_by [ none ↦ false | some requester ↦ nat_eq requester i ]

-- The ids of the user's chat sessions, and of the documents, go with their rows. The foreign key of
-- `reindex_jobs.requested_by` is `ondelete="SET NULL"`.
unfoldable pub delete_user_and_owned_data : Db → ℕ → List ℕ → Db
delete_user_and_owned_data db i document_ids =
    let session_ids =
      map (λ (s : ChatSession). s.id) (where_rows (λ s. nat_eq s.owner_id i) db.chat_sessions) in
    record db {
      users = delete_rows (is_user i) db.users;
      jobs = update_rows (requested i) (λ job. record job { requested_by = none }) db.jobs;
      auth_sessions = delete_rows (session_of_user i) db.auth_sessions;
      messages = delete_rows (λ m. contains session_ids m.session_id) db.messages;
      chat_sessions = delete_rows (λ s. contains session_ids s.id) db.chat_sessions;
      chunks = delete_rows (λ c. contains document_ids c.document_id) db.chunks;
      pages = delete_rows (λ p. contains document_ids p.document_id) db.pages;
      documents = delete_rows (λ d. contains document_ids d.id) db.documents;
    }

abbrev pub owned : ℕ → Document → Bool
owned i d = nat_eq d.owner_id i

-- `list_owned_documents_for_update`
unfoldable pub list_owned_documents : Db → ℕ → List Document
list_owned_documents db i = where_rows (owned i) db.documents

module _ (x : Security) where
  -- A call of `verify` that raises counts as a mismatch.
  abbrev pub verified : Text → Text → Bool
  verified password hashed = or_else (x.verify password hashed) false

  abbrev pub checked_policy : Text → Text → Result AuthError (Unit {0})
  checked_policy password username =
      elim (validate_secure_password x.characters password (some username)) [
        | ok done ↦ ok tt
        | err e ↦ err (password_policy e)
      ]

  -- The token and the time of creation are arguments.
  unfoldable pub create_session : Db → ℕ → Text → ℕ → Db
  create_session db i token now = record db {
    auth_sessions =
        db.auth_sessions
        ++ record {
          user_id = i;
          token_hash = x.hash_session_token token;
          expires_at = now + x.session_ttl;
        }
          ∷ [];
  }

  abbrev new_user : ℕ → Text → Text → User
  new_user i username password = record {
    id = i;
    username = username;
    password_hash = x.hash password;
    role = plain;
    is_active = true;
    must_change_password = false;
  }

  -- The unique constraint on user names raises.
  unfoldable pub register : Db → Text → Text → Text → ℕ → Result AuthError (ℕ × Db)
  register db username password token now = do
    guard (not (any (has_username username) db.users)) username_exists
    let i = db.next_user_id
    let added : Db = record db {
      users = db.users ++ new_user i username password ∷ [];
      next_user_id = i + 1;
    }
    ok (i, create_session added i token now)

  -- The hash that a login is held against.
  unfoldable pub candidate_hash : Option User → Text
  candidate_hash none = x.dummy_password_hash
  candidate_hash (some user) = if user.is_active then user.password_hash else x.dummy_password_hash

  unfoldable pub login : Db → Text → Text → Text → ℕ → Result AuthError (ℕ × Db)
  login db username password token now =
      let user = get_user_by_username db username in
      let password_valid = verified password (candidate_hash user) in
      elim user [
        | none ↦ err invalid_credentials
        | some found ↦
            if not found.is_active || not password_valid
            then err invalid_credentials
            else ok (found.id, create_session db found.id token now)
      ]

  unfoldable pub get_user_for_token : Db → Text → ℕ → Option User
  get_user_for_token db token now =
      let found = get_user_by_session_token_hash db (x.hash_session_token token) now in
      if is_empty token then none else found

  unfoldable pub logout : Db → Text → Db
  logout db token =
      let closed : Db = record db {
        auth_sessions =
            delete_rows (λ s. s.token_hash == x.hash_session_token token) db.auth_sessions;
      } in
      if is_empty token then db else closed

  unfoldable pub change_password : Db → User → Text → Text → Text → Result AuthError Db
  change_password db user current_password new_password session_token = do
    guard (verified current_password user.password_hash) invalid_current_password
    checked_policy new_password user.username
    guard (not (verified new_password user.password_hash)) password_reuse
    ok (
        delete_other_auth_sessions
          (update_user db user.id (with_password (x.hash new_password) false)) user.id
          (x.hash_session_token session_token))

  -- What `reset_password` commits.
  unfoldable pub force_password : Db → ℕ → Text → Db
  force_password db i temporary_password =
      delete_auth_sessions_for_user
        (update_user db i (with_password (x.hash temporary_password) true)) i

  unfoldable pub reset_found : Db → ℕ → User → Text → Result AuthError Db
  reset_found db admin_id user temporary_password = do
    guard user.is_active user_not_found
    guard (not (nat_eq user.id admin_id)) self_password_reset
    checked_policy temporary_password user.username
    guard (not (verified temporary_password user.password_hash)) password_reuse
    ok (force_password db user.id temporary_password)

  unfoldable pub reset_password : Db → ℕ → Text → Text → Result AuthError Db
  reset_password db admin_id username temporary_password = elim (get_user_by_username db username) [
    | none ↦ err user_not_found
    | some user ↦ reset_found db admin_id user temporary_password
  ]

  -- The rows are gone when this returns; the files are removed afterwards.
  unfoldable pub delete_account : Db → User → Text → Text → Result AuthError Db
  delete_account db user current_password username_confirmation = do
    let documents = list_owned_documents db user.id
    guard (verified current_password user.password_hash) invalid_current_password
    guard (x.characters.casefold (strip username_confirmation) == user.username)
        account_confirmation
    guard (not (any (λ d. is_active_status d.status) documents)) account_deletion_conflict
    ok (delete_user_and_owned_data db user.id (map (λ (d : Document). d.id) documents))
