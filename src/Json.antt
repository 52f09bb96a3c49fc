-- ===== src/Json.antt =====
-- The values of a Python dict that came from JSON, or that the program stores as JSON.
use mini_nblm_proto.Prelude.{
  ℕ, zero, suc, Bool, true, false, ◌||◌, not, Option, none, some, List, [], ◌∷◌, if◌then◌else◌,
  or_else, is_empty, ◌==◌, ℕ-Eq, list-Eq, pair-Eq, option-Eq, String,
}
use mini_nblm_proto.Prelude.Int.{ℤ, pos, negsuc}
use mini_nblm_proto.Text.{Text, codes}

-- A float is kept by its text: the program only passes it on.
mutual
  pub data Json : Type 0 where
    null : Json
    bool : Bool → Json
    int : ℤ → Json
    real : Text → Json
    str : Text → Json
    arr : Items → Json
    obj : Fields → Json

  pub data Items : Type 0 where
    nil : Items
    cons : Json → Items → Items

  pub data Fields : Type 0 where
    end : Fields
    field : Text → Json → Fields → Fields

-- `d.get(key)`, and `key in d`.
unfoldable pub get : Text → Fields → Option Json
get key end = none
get key (field k v d) = if k == key then some v else get key d

-- `d.get(key, default)`
unfoldable pub get_or : Text → Json → Fields → Json
unfolding get
get_or key default d = or_else (get key d) default

-- A dict display, its entries in order.
abbrev pub dict : List (Text × Json) → Fields
dict [] = end
dict ((k, v) ∷ d) = field k v (dict d)

-- `{key: d[key] for key in keys if key in d}`
unfoldable pub select : List Text → Fields → Fields
unfolding get
select [] d = end
select (k ∷ keys) d = elim (get k d) [ none ↦ select keys d | some v ↦ field k v (select keys d) ]

-- `d[key] = v` for a key that `d` does not have.
unfoldable pub append_field : Text → Json → Fields → Fields
append_field key v end = field key v end
append_field key v (field k w d) = field k w (append_field key v d)

abbrev pub nat : ℕ → Json
nat n = int (pos n)

abbrev pub text : String → Json
text s = str (codes s)

-- `isinstance(v, dict)`, with the fields.
abbrev pub as_object : Json → Option Fields
as_object (obj d) = some d
as_object _ = none

-- The truth value of a JSON value in Python. A float is false when its text is that of a zero.
abbrev pub is_truthy : Json → Bool
is_truthy null = false
is_truthy (bool b) = b
is_truthy (int (pos zero)) = false
is_truthy (int (pos (suc n))) = true
is_truthy (int (negsuc n)) = true
is_truthy (real t) = not (t == codes "0.0" || t == codes "-0.0")
is_truthy (str t) = not (is_empty t)
is_truthy (arr nil) = false
is_truthy (arr (cons v vs)) = true
is_truthy (obj end) = false
is_truthy (obj (field k v d)) = true

-- `str(v)`, with a parameter for what is no text.
abbrev pub show_json : (Json → Text) → Json → Text
show_json str_of (str t) = t
show_json str_of v = str_of v

-- The values of an array, and the entries of a dict.
abbrev pub items : Items → List Json
items nil = []
items (cons v vs) = v ∷ items vs

abbrev pub entries : Fields → List (Text × Json)
entries end = []
entries (field k v d) = (k, v) ∷ entries d

-- A list of values as an array.
abbrev pub from_list : List Json → Items
from_list [] = nil
from_list (v ∷ vs) = cons v (from_list vs)

-- `isinstance(v, str)` and `isinstance(v, list)`, with the value.
abbrev pub as_text : Json → Option Text
as_text (str t) = some t
as_text _ = none

abbrev pub as_list : Json → Option (List Json)
as_list (arr vs) = some (items vs)
as_list _ = none

-- `d.get(key)`: a missing key gives `None`.
abbrev pub get_null : Text → Fields → Json
get_null key d = get_or key null d
