-- ===== src/Accounts/Erased.antt =====
-- Deleting an account leaves nothing of it.
use mini_nblm_proto.Prelude.{
  ℕ, ◌≡◌, refl, sym, ◌⊎◌, inl, inr, Bool, true, false, not, none, List, [], ◌∷◌, map, arith, nat_eq,
  Bool-cases, any, All, All-imp, ◌==◌, contains, ℕ-Eq, list-Eq, pair-Eq, option-Eq, Result, ok,
  guard, >>=-eq-ok,
}
use mathlib.Core.Path.{subst}
use mini_nblm_proto.Text.{Text, strip}
use mini_nblm_proto.Database.{
  Db, User, Document, ChatSession, ChatMessage, Chunk, DocumentPage, ReindexJob,
}
use mini_nblm_proto.Database.Tables.{
  where_rows, delete_rows, update_rows, where-delete_self, where-delete_other,
}
use mini_nblm_proto.Documents.{is_active_status}
use mini_nblm_proto.Accounts.{
  Security, is_user, session_of_user, requested, owned, list_owned_documents,
  delete_user_and_owned_data, delete_account, verified, invalid_current_password,
  account_confirmation, account_deletion_conflict,
}

module _ {A : Type 0} (p : A → Bool) (key : A → ℕ) where
  -- Deleting by a list of keys that has the keys of all rows with `p` leaves none with `p`.
  where-delete_keys :
      (keys : List ℕ) (xs : List A)
      → All (λ a. (p a ≡ false) ⊎ (contains keys (key a) ≡ true)) xs
      → where_rows p (delete_rows (λ a. contains keys (key a)) xs) ≡ []
  unfolding where_rows delete_rows
  where-delete_keys keys [] h = refl
  where-delete_keys keys (a ∷ xs) h = ground (arith, where-delete_keys keys xs h.1, h.0)

  abbrev IsCovered : List ℕ → A → Type 0
  IsCovered keys a = (p a ≡ false) ⊎ (contains keys (key a) ≡ true)

  IsCovered-more :
      (a : A) (xs : List A) (b : A)
      → IsCovered (map key (where_rows p xs)) b
      → IsCovered (map key (where_rows p (a ∷ xs))) b
  unfolding where_rows
  IsCovered-more a xs b (inl e) = inl e
  IsCovered-more a xs b (inr e) = inr (ground (arith, e))

  IsCovered-head : (a : A) (xs : List A) → IsCovered (map key (where_rows p (a ∷ xs))) a
  unfolding where_rows
  IsCovered-head a xs = elim (Bool-cases (p a)) [
    | inl e ↦ inr (ground (arith, e, ℕ-Eq.eqb_iff (key a) (key a)))
    | inr e ↦ inl e
  ]

  keys_cover : (xs : List A) → All (IsCovered (map key (where_rows p xs))) xs
  keys_cover [] = tt
  keys_cover (a ∷ xs) = (
    IsCovered-head a xs,
    All-imp (IsCovered (map key (where_rows p xs))) (IsCovered (map key (where_rows p (a ∷ xs))))
        (IsCovered-more a xs) xs (keys_cover xs),
  )

  where-delete_own_keys :
      (xs : List A)
      → where_rows p (delete_rows (λ a. contains (map key (where_rows p xs)) (key a)) xs) ≡ []
  where-delete_own_keys xs = where-delete_keys (map key (where_rows p xs)) xs (keys_cover xs)

requester_cleared :
    (i : ℕ) (jobs : List ReindexJob)
    → where_rows
        (requested i)
        (update_rows (requested i) (λ job. record job { requested_by = none }) jobs)
      ≡ []
unfolding where_rows update_rows
requester_cleared i [] = refl
requester_cleared i (job ∷ jobs) = elim (Bool-cases (requested i job)) [
  | inl e ↦ rw (e, requester_cleared i jobs) refl
  | inr e ↦ rw (e, e, requester_cleared i jobs) refl
]

abbrev pub in_chats : Db → ℕ → ChatMessage → Bool
in_chats db i m =
    contains
      (map (λ (s : ChatSession). s.id) (where_rows (λ s. nat_eq s.owner_id i) db.chat_sessions))
      m.session_id

abbrev pub in_documents : Db → ℕ → ℕ → Bool
in_documents db i id =
    contains (map (λ (d : Document). d.id) (where_rows (owned i) db.documents)) id

-- Of what the user had in `db`, no row is left in `db'`, and no job names the user.
pub record IsErased (i : ℕ) (db db' : Db) : Type 0 where
  pub account : where_rows (is_user i) db'.users ≡ []
  pub sessions : where_rows (session_of_user i) db'.auth_sessions ≡ []
  pub documents : where_rows (owned i) db'.documents ≡ []
  pub chunks : where_rows (λ c. in_documents db i c.document_id) db'.chunks ≡ []
  pub pages : where_rows (λ p. in_documents db i p.document_id) db'.pages ≡ []
  pub chats : where_rows (λ s. nat_eq s.owner_id i) db'.chat_sessions ≡ []
  pub messages : where_rows (in_chats db i) db'.messages ≡ []
  pub jobs : where_rows (requested i) db'.jobs ≡ []
  pub other_users :
      where_rows (λ u. not (is_user i u)) db'.users ≡ where_rows (λ u. not (is_user i u)) db.users
  pub other_sessions :
      where_rows (λ s. not (session_of_user i s)) db'.auth_sessions
      ≡ where_rows (λ s. not (session_of_user i s)) db.auth_sessions

delete_user-IsErased :
    (db : Db) (i : ℕ)
    → IsErased i db
        (delete_user_and_owned_data db i (map (λ (d : Document). d.id) (list_owned_documents db i)))
unfolding delete_user_and_owned_data list_owned_documents
delete_user-IsErased db i = record {
  account = where-delete_self (is_user i) db.users;
  sessions = where-delete_self (session_of_user i) db.auth_sessions;
  documents = where-delete_own_keys (owned i) (λ (d : Document). d.id) db.documents;
  chats =
      where-delete_own_keys (λ (s : ChatSession). nat_eq s.owner_id i) (λ (s : ChatSession). s.id)
        db.chat_sessions;
  chunks = where-delete_self (λ (c : Chunk). in_documents db i c.document_id) db.chunks;
  pages = where-delete_self (λ (p : DocumentPage). in_documents db i p.document_id) db.pages;
  messages = where-delete_self (in_chats db i) db.messages;
  jobs = requester_cleared i db.jobs;
  other_users =
      where-delete_other (λ u. not (is_user i u)) (is_user i) db.users (λ u h. ground (arith, h));
  other_sessions =
      where-delete_other (λ s. not (session_of_user i s)) (session_of_user i) db.auth_sessions
        (λ s h. ground (arith, h));
}

ok_injective : {E V : Type 0} {a b : V} → ◌≡◌ {A = Result E V} (ok a) (ok b) → b ≡ a
ok_injective h = cc

delete_account-inv :
    (x : Security) (db : Db) (user : User) (current_password username_confirmation : Text)
    (db' : Db)
    → delete_account x db user current_password username_confirmation ≡ ok db'
    → (any (λ (d : Document). is_active_status d.status) (list_owned_documents db user.id) ≡ false)
      × (db'
          ≡ delete_user_and_owned_data db user.id
              (map (λ (d : Document). d.id) (list_owned_documents db user.id)))
unfolding delete_account
delete_account-inv x db user current_password username_confirmation db' h =
    let busy =
      any (λ (d : Document). is_active_status d.status) (list_owned_documents db user.id) in
    let (a, ha, h1) =
      >>=-eq-ok (guard (verified x current_password user.password_hash) invalid_current_password) _
        h in
    let (b, hb, h2) =
      >>=-eq-ok
        (guard (x.characters.casefold (strip username_confirmation) == user.username)
          account_confirmation)
        _ h1 in
    let (c, hc, h3) = >>=-eq-ok (guard (not busy) account_deletion_conflict) _ h2 in
    (idle busy hc, ok_injective h3)
  where
    idle :
        (busy : Bool) {done : Unit {0}}
        → guard (not busy) account_deletion_conflict ≡ ok done
        → busy ≡ false
    idle true q = cc
    idle false q = refl

-- A deletion of an account that succeeds leaves nothing of the user: no account and no sign-in
-- session; none of the user's documents, nor a chunk or page of one; none of the user's chats, nor a
-- message of one; and no reindex job names the user. The accounts and sign-in sessions of all others
-- stay as they are. It only succeeds when none of the user's documents waits for processing or is in
-- it.
pub delete_account-IsErased :
    (x : Security) (db : Db) (user : User) (current_password username_confirmation : Text)
    (db' : Db)
    → delete_account x db user current_password username_confirmation ≡ ok db'
    → IsErased user.id db db'
      × (any (λ (d : Document). is_active_status d.status) (list_owned_documents db user.id)
          ≡ false)
delete_account-IsErased x db user current_password username_confirmation db' h =
    let (idle, same) = delete_account-inv x db user current_password username_confirmation db' h in
    (subst (IsErased user.id db) (sym same) (delete_user-IsErased db user.id), idle)
