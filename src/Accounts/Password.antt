-- ===== src/Accounts/Password.antt =====
-- app/password_policy.py. The tests of single characters, which follow Unicode, are parameters.
use mini_nblm_proto.Prelude.{
  ℕ, ◌+◌, Bool, true, false, ◌&&◌, not, Option, none, some, List, [], ◌∷◌, map, ltb, length,
  is_empty, any, contains, ℕ-Eq, list-Eq, pair-Eq, option-Eq, Result, ◌>>◌, guard,
}
use mini_nblm_proto.Text.{Text, codes, occurs_in}

pub record Characters : Type 0 where
  pub casefold : Text → Text
  pub is_lower : ℕ → Bool
  pub is_upper : ℕ → Bool
  pub is_digit : ℕ → Bool
  pub is_alnum : ℕ → Bool

pub data PasswordError : Type 0 where
  too_short too_common contains_username too_few_classes : PasswordError

abbrev common_weak_passwords : List Text
common_weak_passwords = map codes (
    "admin" ∷ "adminadmin" ∷ "admin123" ∷ "admin1234" ∷ "changeme" ∷ "password" ∷ "password123"
    ∷ "password1234" ∷ [])

abbrev int_of : Bool → ℕ
int_of true = 1
int_of false = 0

module _ (x : Characters) where
  unfoldable pub character_classes : Text → ℕ
  character_classes password =
      int_of (any x.is_lower password)
      + int_of (any x.is_upper password)
      + int_of (any x.is_digit password)
      + int_of (any (λ c. not (x.is_alnum c)) password)

  -- `username and username.casefold() in normalized`
  unfoldable pub names_user : Option Text → Text → Bool
  unfolding occurs_in
  names_user none normalized = false
  names_user (some username) normalized =
      not (is_empty username) && occurs_in (x.casefold username) normalized

  unfoldable pub validate_secure_password : Text → Option Text → Result PasswordError (Unit {0})
  validate_secure_password password username = do
    let normalized = x.casefold password
    guard (not (ltb (length password) 8)) too_short
    guard (not (contains common_weak_passwords normalized)) too_common
    guard (not (names_user username normalized)) contains_username
    guard (not (ltb (character_classes password) 3)) too_few_classes
