-- ===== src/Tests/Accounts.antt =====
-- Accounts on the small database.
use mini_nblm_proto.Prelude.{
  ℕ, ◌≡◌, refl, ◌≢◌, false, ◌&&◌, ◌||◌, none, some, [], ◌∷◌, arith, leb, any, ◌==◌, ℕ-Eq, list-Eq,
  pair-Eq, option-Eq, ok,
}
use mini_nblm_proto.Text.{codes, strip}
use mini_nblm_proto.Database.{Db, User}
use mini_nblm_proto.Database.Tables.{find, where_rows, update_rows, delete_rows}
use mini_nblm_proto.Documents.{is_active_status}
use mini_nblm_proto.Accounts.Password.{validate_secure_password, names_user, character_classes}
use mini_nblm_proto.Accounts.{
  Security, session_of_user, other_session, get_user_by_username, get_user_for_token,
  change_password, reset_password, delete_account, list_owned_documents, delete_user_and_owned_data,
  create_session, reset_found, get_user_by_session_token_hash, delete_auth_sessions_for_user,
  force_password, update_user, delete_other_auth_sessions, with_password,
}
use mini_nblm_proto.Accounts.Revoked.{change_password-revokes, reset_password-locks_out}
use mini_nblm_proto.Accounts.Erased.{IsErased, delete_account-IsErased}
use mini_nblm_proto.Tests.Data.{two_documents, owner}

-- A hash is the password with a mark; characters are those of ASCII.
abbrev security : Security
security = record {
  characters = record {
    casefold = λ t. t;
    is_lower = λ c. leb 97 c && leb c 122;
    is_upper = λ c. leb 65 c && leb c 90;
    is_digit = λ c. leb 48 c && leb c 57;
    is_alnum = λ c. (leb 97 c && leb c 122) || (leb 65 c && leb c 90) || (leb 48 c && leb c 57);
  };
  hash = λ t. 35 ∷ t;
  verify = λ t h. some (h == 35 ∷ t);
  dummy_password_hash = [];
  hash_session_token = λ t. 64 ∷ t;
  session_ttl = 100;
}

abbrev kim : User
kim = record owner { password_hash = 35 ∷ codes "Old-pass1" }

abbrev lee : User
lee = record owner { id = 8; username = codes "lee" }

-- Two sessions of kim and one of lee.
abbrev signed_in : Db
signed_in =
    create_session security
      (create_session security
        (create_session security (record two_documents { users = kim ∷ lee ∷ [] }) 7 (codes "a") 0)
        7 (codes "b") 0)
      8 (codes "c") 0

abbrev changed : Db
changed =
    delete_other_auth_sessions
      (update_user signed_in 7 (with_password (35 ∷ codes "New-pass2") false)) 7 (64 ∷ codes "a")

changed_ok :
    change_password security signed_in kim (codes "Old-pass1") (codes "New-pass2") (codes "a")
    ≡ ok changed
unfolding change_password validate_secure_password names_user character_classes
changed_ok = refl

eight_ne_seven : ◌≢◌ {A = ℕ} 8 7
eight_ne_seven h = omega arith

change_password-revokes_example :
    (where_rows (other_session 7 (64 ∷ codes "a")) changed.auth_sessions ≡ [])
    × (where_rows (session_of_user 8) changed.auth_sessions
        ≡ where_rows (session_of_user 8) signed_in.auth_sessions)
change_password-revokes_example =
    change_password-revokes security signed_in kim (codes "Old-pass1") (codes "New-pass2")
      (codes "a") changed 8 changed_ok eight_ne_seven

abbrev reset : Db
reset = force_password security signed_in 7 (codes "New-pass2")

kim_found : get_user_by_username signed_in (codes "kim") ≡ some kim
unfolding get_user_by_username find create_session
kim_found = refl

reset_ok : reset_password security signed_in 1 (codes "kim") (codes "New-pass2") ≡ ok reset
unfolding reset_password get_user_by_username find create_session validate_secure_password
    reset_found names_user character_classes
reset_ok = refl

lee_signs_in : get_user_for_token security reset (codes "c") 5 ≡ some lee
unfolding get_user_for_token force_password create_session get_user_by_session_token_hash find
    delete_auth_sessions_for_user update_user update_rows delete_rows
lee_signs_in = refl

reset_password-locks_out_example : lee.id ≢ kim.id
reset_password-locks_out_example =
    reset_password-locks_out security signed_in 1 (codes "kim") (codes "New-pass2") reset kim
      (codes "c") 5 lee kim_found reset_ok lee_signs_in

-- With a chat of each user, and a message in each.
abbrev chatting : Db
chatting = record signed_in {
  chat_sessions =
      record { id = 3; owner_id = 7; document_id = none }
      ∷ record { id = 4; owner_id = 8; document_id = none }
      ∷ [];
  messages =
      record { id = 1; session_id = 3; content = codes "a" }
      ∷ record { id = 2; session_id = 4; content = codes "b" }
      ∷ [];
}

abbrev erased : Db
erased = delete_user_and_owned_data chatting 7 (1 ∷ 2 ∷ [])

one_message_left : erased.messages ≡ record { id = 2; session_id = 4; content = codes "b" } ∷ []
unfolding delete_user_and_owned_data create_session where_rows delete_rows
one_message_left = refl

erased_ok : delete_account security chatting kim (codes "Old-pass1") (codes " kim ") ≡ ok erased
unfolding delete_account list_owned_documents create_session strip where_rows
erased_ok = refl

delete_account-IsErased_example :
    IsErased 7 chatting erased
    × (any (λ d. is_active_status d.status) (list_owned_documents chatting 7) ≡ false)
delete_account-IsErased_example =
    delete_account-IsErased security chatting kim (codes "Old-pass1") (codes " kim ") erased
      erased_ok
