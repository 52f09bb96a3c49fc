-- ===== src/Presets.antt =====
-- app/retrieval_presets.py: the presets that size chunks and contexts.
use mini_nblm_proto.Prelude.{
  ℕ, ◌+◌, ◌*◌, ◌/◌, ◌≡◌, refl, Bool, ◌&&◌, ◌||◌, not, Option, none, some, List, [], ◌∷◌, map, ltb,
  leb, nat_eq, if◌then◌else◌, is_empty, all, All, ◌==◌, ℕ-Eq, list-Eq, pair-Eq, option-Eq, String,
  Result, ok, err,
}
use mini_nblm_proto.Text.{Text, codes, strip}

pub record RetrievalPreset : Type 0 where
  pub key : Text
  pub display_name : Text
  pub chunk_size_chars : ℕ
  pub chunk_overlap_chars : ℕ
  pub top_k : ℕ

-- The messages of the `ValueError`s that `__post_init__` raises.
pub data PresetError : Type 0 where
  bad_key no_display_name bad_chunk_size bad_overlap overlap_above_half bad_top_k : PresetError

remove_char : ℕ → Text → Text
remove_char c [] = []
remove_char c (d ∷ t) = let rest = remove_char c t in if nat_eq d c then rest else d ∷ rest

is_ascii : Text → Bool
is_ascii = all (λ c. ltb c 128)

is_upper : ℕ → Bool
is_upper c = leb b'A' c && leb c b'Z'

-- `str.isalnum` of a text that is ASCII and not empty.
is_alnum : Text → Bool
unfolding is_upper
is_alnum = all (λ c. is_upper c || (leb b'a' c && leb c b'z') || (leb b'0' c && leb c b'9'))

-- `str.lower` of a text that is ASCII.
lower : Text → Text
unfolding is_upper
lower = map (λ c. if is_upper c then c + 32 else c)

-- `RetrievalPreset.__post_init__`. The sizes are naturals, so `0 <= chunk_overlap_chars` holds.
unfoldable pub post_init : RetrievalPreset → Result PresetError RetrievalPreset
unfolding remove_char is_ascii is_alnum lower strip
post_init p =
    let normalized_key = remove_char b'_' p.key in
    if is_empty normalized_key
      || not (is_ascii normalized_key)
      || not (is_alnum normalized_key)
      || not (p.key == lower p.key)
    then err bad_key
    else if is_empty (strip p.display_name)
    then err no_display_name
    else if not (leb 200 p.chunk_size_chars && leb p.chunk_size_chars 3500)
    then err bad_chunk_size
    else if not (leb 0 p.chunk_overlap_chars && ltb p.chunk_overlap_chars p.chunk_size_chars)
    then err bad_overlap
    else if ltb (p.chunk_size_chars / 2) p.chunk_overlap_chars
    then err overlap_above_half
    else if not (leb 1 p.top_k && leb p.top_k 20)
    then err bad_top_k
    else ok p

unfoldable pub maximum_context_chars : RetrievalPreset → ℕ
maximum_context_chars p = p.chunk_size_chars * p.top_k

pub record PresetChangePlan : Type 0 where
  pub reindex_documents : Bool
  pub runtime_settings_changed : Bool

unfoldable pub plan_preset_change : RetrievalPreset → RetrievalPreset → PresetChangePlan
plan_preset_change current target = record {
  reindex_documents =
      not (current.chunk_size_chars == target.chunk_size_chars)
      || not (current.chunk_overlap_chars == target.chunk_overlap_chars);
  runtime_settings_changed = not (current.top_k == target.top_k);
}

abbrev preset : String → String → ℕ → ℕ → ℕ → RetrievalPreset
preset key name size overlap top_k = record {
  key = codes key;
  display_name = codes name;
  chunk_size_chars = size;
  chunk_overlap_chars = overlap;
  top_k = top_k;
}

abbrev pub built_in_presets : List RetrievalPreset
built_in_presets =
    preset "fine_grained" "Fine grained" 200 40 20
    ∷ preset "standard" "Standard" 500 75 12
    ∷ preset "balanced" "Balanced" 1000 150 8
    ∷ preset "broad_context" "Broad context" 2000 300 5
    ∷ preset "long_form" "Long form" 3500 500 4
    ∷ []

find_preset : Text → List RetrievalPreset → Option RetrievalPreset
find_preset key [] = none
find_preset key (p ∷ ps) = if p.key == key then some p else find_preset key ps

-- `none` is the `ValueError` on an unknown key.
unfoldable pub get_retrieval_preset : Text → Option RetrievalPreset
unfolding find_preset
get_retrieval_preset key = find_preset key built_in_presets

-- The built-in presets all pass their own validation, and each is found under its key.
built_in-lookup :
    All (λ p. (post_init p ≡ ok p) × (get_retrieval_preset p.key ≡ some p)) built_in_presets
unfolding post_init get_retrieval_preset
built_in-lookup = ((refl, refl), ((refl, refl), ((refl, refl), ((refl, refl), ((refl, refl), tt)))))
