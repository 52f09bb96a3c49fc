-- ===== src/Text.antt =====
-- Python's `str` as a list of code points, with the methods that the program calls.
pub mod Laws
use mini_nblm_proto.Prelude.{
  ℕ, zero, suc, ◌+◌, ◌/◌, ◌%◌, Bool, true, false, ◌&&◌, ◌||◌, Option, none, some, List, [], ◌∷◌,
  ◌++◌, map, reverse, ltb, leb, nat_eq, if◌then◌else◌, is_empty, String,
}
use Prim.Native.Char.{code}

abbrev pub Text : Type 0
Text = List ℕ

-- A literal of the source.
abbrev pub codes : String → Text
codes String.[] = []
codes (String.◌∷◌ c s) = code c ∷ codes s

-- `str.isspace` of one character: the white space that `strip` and `split` take away.
unfoldable pub is_space : ℕ → Bool
is_space c =
    (leb 9 c && leb c 13)
    || (leb 28 c && leb c 32)
    || nat_eq c 133
    || nat_eq c 160
    || nat_eq c 5760
    || (leb 8192 c && leb c 8202)
    || nat_eq c 8232
    || nat_eq c 8233
    || nat_eq c 8239
    || nat_eq c 8287
    || nat_eq c 12288

unfoldable pub lstrip : Text → Text
unfolding is_space
lstrip [] = []
lstrip (c ∷ t) = if is_space c then lstrip t else c ∷ t

-- One step of `rstrip` from the right: a space is dropped where nothing is left behind it.
abbrev pub push_unless_trailing : ℕ → Text → Text
push_unless_trailing c [] = if is_space c then [] else c ∷ []
push_unless_trailing c (d ∷ t) = c ∷ d ∷ t

unfoldable pub rstrip : Text → Text
unfolding is_space
rstrip [] = []
rstrip (c ∷ t) = push_unless_trailing c (rstrip t)

unfoldable pub strip : Text → Text
unfolding lstrip rstrip
strip t = rstrip (lstrip t)

-- `sep.join(parts)`
unfoldable pub join : Text → List Text → Text
join sep [] = []
join sep (t ∷ []) = t
join sep (t ∷ u ∷ ts) = t ++ sep ++ join sep (u ∷ ts)

-- `str(n)`: decimal digits. Every division shortens the number, so `n + 1` rounds are enough.
unfoldable pub digits : ℕ → ℕ → Text → Text
digits zero n out = out
digits (suc fuel) n out =
    let more = digits fuel (n / 10) ((48 + n % 10) ∷ out) in
    if ltb n 10 then (48 + n) ∷ out else more

unfoldable pub str_nat : ℕ → Text
unfolding digits
str_nat n = digits (n + 1) n []

-- `t.split()`: `word` is read so far, in reverse.
unfoldable pub words_from : Text → Text → List Text
unfolding is_space
words_from word [] = if is_empty word then [] else reverse word ∷ []
words_from word (c ∷ t) =
    let cut = words_from [] t in
    let more = words_from (c ∷ word) t in
    if is_space c then (if is_empty word then cut else reverse word ∷ cut) else more

-- `" ".join(t.split())`
unfoldable pub normalize_space : Text → Text
unfolding words_from join
normalize_space t = join (32 ∷ []) (words_from [] t)

-- `t.replace(c, d)` for single characters
abbrev pub replace_char : ℕ → ℕ → Text → Text
replace_char c d t = map (λ x. if nat_eq x c then d else x) t

-- `t.startswith(part)`
unfoldable pub starts_with : Text → Text → Bool
starts_with [] t = true
starts_with (c ∷ part) [] = false
starts_with (c ∷ part) (d ∷ t) = nat_eq c d && starts_with part t

-- `part in t`
unfoldable pub occurs_in : Text → Text → Bool
unfolding starts_with
occurs_in part [] = is_empty part
occurs_in part (c ∷ t) = starts_with part (c ∷ t) || occurs_in part t

-- A number that may be missing, in an f-string.
unfoldable pub show_page : Option ℕ → Text
unfolding str_nat
show_page none = codes "None"
show_page (some page) = str_nat page
