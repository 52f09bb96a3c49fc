-- ===== src/Text/Laws.antt =====
-- What the string methods keep: lengths, and that nothing is left to strip.
use mini_nblm_proto.Prelude.{
  ℕ, ◌+◌, ◌≤◌, ◌≡◌, true, [], ◌∷◌, arith, length, ℕ-Eq, list-Eq, pair-Eq, option-Eq,
}
use mini_nblm_proto.Text.{Text, is_space, lstrip, rstrip, strip, push_unless_trailing}

pub length-lstrip-le : (t : Text) → length (lstrip t) ≤ length t
unfolding lstrip
length-lstrip-le [] = omega arith
length-lstrip-le (c ∷ t) = ground (arith, length-lstrip-le t)

length-push-le : (c : ℕ) (t : Text) → length (push_unless_trailing c t) ≤ length t + 1
length-push-le c [] = ground arith
length-push-le c (d ∷ t) = omega arith

pub length-rstrip-le : (t : Text) → length (rstrip t) ≤ length t
unfolding rstrip
length-rstrip-le [] = omega arith
length-rstrip-le (c ∷ t) = omega (arith, length-rstrip-le t, length-push-le c (rstrip t))

pub length-strip-le : (t : Text) → length (strip t) ≤ length t
unfolding strip
length-strip-le t = omega (arith, length-rstrip-le (lstrip t), length-lstrip-le t)

-- `str.isspace` of a whole text: what `strip` takes away entirely.
abbrev pub IsBlank : Text → Type 0
IsBlank [] = Unit
IsBlank (c ∷ t) = (is_space c ≡ true) × IsBlank t

pub IsBlank-rstrip : (t : Text) → rstrip t ≡ [] → IsBlank t
unfolding rstrip
IsBlank-rstrip [] h = tt
IsBlank-rstrip (c ∷ t) h = ground (arith, IsBlank-rstrip t)

pub IsBlank-lstrip : (t : Text) → IsBlank (lstrip t) → IsBlank t
unfolding lstrip
IsBlank-lstrip [] h = tt
IsBlank-lstrip (c ∷ t) h = ground (arith, IsBlank-lstrip t)

-- A text that strips to nothing has only white space.
pub IsBlank-strip : (t : Text) → strip t ≡ [] → IsBlank t
unfolding strip
IsBlank-strip t h = IsBlank-lstrip t (IsBlank-rstrip (lstrip t) h)
