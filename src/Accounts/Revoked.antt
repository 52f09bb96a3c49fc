-- ===== src/Accounts/Revoked.antt =====
-- A new password ends sessions: the others of the user on a change, all of them on a reset.
use mini_nblm_proto.Prelude.{
  ℕ, ◌≡◌, refl, sym, ◌∙◌, ◌≢◌, Bool, true, false, ◌&&◌, not, Option, none, some, List, [], ◌∷◌,
  arith, nat_eq, if◌then◌else◌, is_empty, any, ℕ-Eq, list-Eq, pair-Eq, option-Eq, Result, ok, guard,
  >>=-eq-ok,
}
use mathlib.Core.Path.{subst}
use mini_nblm_proto.Text.{Text}
use mini_nblm_proto.Database.{Db, User, AuthSession}
use mini_nblm_proto.Database.Tables.{
  find-sat, where_rows, delete_rows, where-delete_self, where-delete_other,
}
use mini_nblm_proto.Accounts.{
  Security, session_of_user, other_session, opens, update_user, with_password,
  delete_other_auth_sessions, delete_auth_sessions_for_user, get_user_by_username,
  get_user_by_session_token_hash, get_user_for_token, change_password, checked_policy, verified,
  force_password, reset_found, reset_password, invalid_current_password, password_reuse,
  user_not_found, self_password_reset,
}

ok_injective : {E V : Type 0} {a b : V} → ◌≡◌ {A = Result E V} (ok a) (ok b) → b ≡ a
ok_injective h = cc

not_skipped :
    (skipped : Bool) (found : Option User) (u : User)
    → (if skipped then none else found) ≡ some u
    → found ≡ some u
not_skipped true found u h = cc
not_skipped false found u h = h

module _ (x : Security) where
  change_password-eq :
      (db : Db) (user : User) (current_password new_password session_token : Text) (db' : Db)
      → change_password x db user current_password new_password session_token ≡ ok db'
      → db'
        ≡ delete_other_auth_sessions
            (update_user db user.id (with_password (x.hash new_password) false))
            user.id
            (x.hash_session_token session_token)
  unfolding change_password
  change_password-eq db user current_password new_password session_token db' h =
      let (a, ha, h1) =
        >>=-eq-ok (guard (verified x current_password user.password_hash) invalid_current_password)
          _ h in
      let (b, hb, h2) = >>=-eq-ok (checked_policy x new_password user.username) _ h1 in
      let (c, hc, h3) =
        >>=-eq-ok (guard (not (verified x new_password user.password_hash)) password_reuse) _ h2 in
      ok_injective h3

  -- After a password change no session of the user is left but the one that made it, and the sessions
  -- of every other user are as they were.
  pub change_password-revokes :
      (db : Db) (user : User) (current_password new_password session_token : Text) (db' : Db)
      (j : ℕ)
      → change_password x db user current_password new_password session_token ≡ ok db'
      → j ≢ user.id
      → (where_rows (other_session user.id (x.hash_session_token session_token)) db'.auth_sessions
          ≡ [])
        × (where_rows (session_of_user j) db'.auth_sessions
            ≡ where_rows (session_of_user j) db.auth_sessions)
  unfolding delete_other_auth_sessions update_user
  change_password-revokes db user current_password new_password session_token db' j h ne =
      let token_hash = x.hash_session_token session_token in
      rw (change_password-eq db user current_password new_password session_token db' h) (
        where-delete_self (other_session user.id token_hash) db.auth_sessions,
        where-delete_other (session_of_user j) (other_session user.id token_hash) db.auth_sessions
            (λ s e. ground arith),
      )

  no_session_opens :
      (token_hash : Text) (now : ℕ) (u : User) (i : ℕ) (sessions : List AuthSession)
      → u.id ≡ i
      → any (opens token_hash now u) (delete_rows (session_of_user i) sessions) ≡ false
  unfolding delete_rows where_rows
  no_session_opens token_hash now u i [] e = refl
  no_session_opens token_hash now u i (s ∷ sessions) e =
      ground (arith, no_session_opens token_hash now u i sessions e)

  reset_found-eq :
      (db : Db) (admin_id : ℕ) (user : User) (temporary_password : Text) (db' : Db)
      → reset_found x db admin_id user temporary_password ≡ ok db'
      → db' ≡ force_password x db user.id temporary_password
  unfolding reset_found
  reset_found-eq db admin_id user temporary_password db' h =
      let (a, ha, h1) = >>=-eq-ok (guard user.is_active user_not_found) _ h in
      let (b, hb, h2) =
        >>=-eq-ok (guard (not (nat_eq user.id admin_id)) self_password_reset) _ h1 in
      let (c, hc, h3) = >>=-eq-ok (checked_policy x temporary_password user.username) _ h2 in
      let (d, hd, h4) =
        >>=-eq-ok (guard (not (verified x temporary_password user.password_hash)) password_reuse) _
          h3 in
      ok_injective h4

  opened-has_session :
      (db : Db) (token_hash : Text) (now : ℕ) (u : User)
      → get_user_by_session_token_hash db token_hash now ≡ some u
      → any (opens token_hash now u) db.auth_sessions ≡ true
  unfolding get_user_by_session_token_hash
  opened-has_session db token_hash now u h =
      let sat =
        find-sat (λ v. v.is_active && any (opens token_hash now v) db.auth_sessions) db.users u h in
      ground arith

  forced-no_session :
      (db : Db) (i : ℕ) (temporary_password token_hash : Text) (now : ℕ) (u : User)
      → get_user_by_session_token_hash (force_password x db i temporary_password) token_hash now
        ≡ some u
      → u.id ≢ i
  unfolding force_password delete_auth_sessions_for_user update_user
  forced-no_session db i temporary_password token_hash now u h e =
      let open_session =
        opened-has_session (force_password x db i temporary_password) token_hash now u h in
      let closed = no_session_opens token_hash now u i db.auth_sessions e in
      ground (arith, open_session, closed)

  reset_password-eq :
      (db : Db) (admin_id : ℕ) (username temporary_password : Text) (user : User)
      → get_user_by_username db username ≡ some user
      → reset_password x db admin_id username temporary_password
        ≡ reset_found x db admin_id user temporary_password
  unfolding reset_password
  reset_password-eq db admin_id username temporary_password user found = rw (found, reset_password)

  -- In the state that an administrator's reset of a user's password commits, no token, at any time,
  -- signs in as that user.
  pub reset_password-locks_out :
      (db : Db) (admin_id : ℕ) (username temporary_password : Text) (db' : Db) (user : User)
      (token : Text) (now : ℕ) (u : User)
      → get_user_by_username db username ≡ some user
      → reset_password x db admin_id username temporary_password ≡ ok db'
      → get_user_for_token x db' token now ≡ some u
      → u.id ≢ user.id
  unfolding get_user_for_token
  reset_password-locks_out db admin_id username temporary_password db' user token now u found h
        opened =
      forced-no_session db user.id temporary_password (x.hash_session_token token) now u (
        subst
          (λ after. get_user_by_session_token_hash after (x.hash_session_token token) now ≡ some u)
          (reset_found-eq db admin_id user temporary_password db'
            (sym (reset_password-eq db admin_id username temporary_password user found) ∙ h))
          (not_skipped (is_empty token) _ u opened))
