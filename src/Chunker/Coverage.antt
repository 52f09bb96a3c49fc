-- ===== src/Chunker/Coverage.antt =====
-- The window loop of `chunk_pages` leaves out no character that is not white space.
use mini_nblm_proto.Prelude.{
  ℕ, zero, suc, ◌+◌, ◌-◌, ◌≤◌, ◌<◌, min, max, ◌≡◌, refl, ◌∙◌, ◌≢◌, inl, inr, true, false, some,
  List, [], ◌∷◌, arith, ltb, leb, ltb→lt, lt→ltb, leb→le, Bool-cases, length, get_elem?, take, drop,
  slice, is_empty, Any, ℕ-Eq, list-Eq, pair-Eq, option-Eq,
}
use mini_nblm_proto.Text.{Text, strip, is_space}
use mini_nblm_proto.Text.Laws.{IsBlank, IsBlank-strip}
use mini_nblm_proto.Json.{Json}
use mini_nblm_proto.Chunker.{ParsedPage, text_chunk, window_chunks, text_windows}
use mini_nblm_proto.Chunker.Cuts.{
  Cut, Covers, AnyMade, add_chunks-AnyMade_left, add_chunks-AnyMade_right, Ends-is_some,
}
use mini_nblm_proto.Chunker.Windows.{window_of, text_windows-Ends}

IsBlank-nth : (t : Text) (i c : ℕ) → IsBlank t → get_elem? t i ≡ some c → is_space c ≡ true
IsBlank-nth [] i c h e = cc
IsBlank-nth (d ∷ t) zero c h e = ground arith
IsBlank-nth (d ∷ t) (suc i) c h e = IsBlank-nth t i c h.1 e

pub get_elem?-lt : {A : Type 0} (t : List A) (i : ℕ) (x : A) → get_elem? t i ≡ some x → i < length t
get_elem?-lt [] i x h = cc
get_elem?-lt (y ∷ t) zero x h = omega arith
get_elem?-lt (y ∷ t) (suc i) x h = omega (arith, get_elem?-lt t i x h)

pub get_elem?-empty :
    {A : Type 0} (t : List A) (i : ℕ) (x : A) → is_empty t ≡ true → get_elem? t i ≢ some x
get_elem?-empty [] i x h e = cc
get_elem?-empty (y ∷ t) i x h e = cc

pub get_elem?-take :
    {A : Type 0} (n i : ℕ) (t : List A) → i < n → get_elem? (take n t) i ≡ get_elem? t i
get_elem?-take zero i t h = elim h [ ]
get_elem?-take (suc n) i [] h = refl
get_elem?-take (suc n) zero (x ∷ t) h = refl
get_elem?-take (suc n) (suc i) (x ∷ t) h = get_elem?-take n i t (omega arith)

pub get_elem?-drop :
    {A : Type 0} (s i : ℕ) (t : List A) → get_elem? (drop s t) i ≡ get_elem? t (s + i)
get_elem?-drop zero i t = let e : 0 + i ≡ i = omega arith in rw e
get_elem?-drop (suc s) i [] = refl
get_elem?-drop (suc s) i (x ∷ t) =
    let e : suc s + i ≡ suc (s + i) = omega arith in rw e (get_elem?-drop s i t)

empty→eq : (t : Text) → is_empty t ≡ true → t ≡ []
empty→eq [] h = refl
empty→eq (c ∷ t) h = cc

pub slice-nth :
    (t : Text) (start end i : ℕ)
    → start ≤ i
    → i < end
    → get_elem? (slice start end t) (i - start) ≡ get_elem? t i
slice-nth t start end i lo hi =
    let e : start + (i - start) ≡ i = omega arith in
    get_elem?-take (end - start) (i - start) (drop start t) (omega arith)
    ∙ get_elem?-drop start (i - start) t
    ∙ rw e

-- A character inside a window that is not white space keeps the window's chunk.
pub window-not-blank :
    (t : Text) (start end i c : ℕ)
    → start ≤ i
    → i < end
    → get_elem? t i ≡ some c
    → is_space c ≡ false
    → is_empty (strip (slice start end t)) ≡ false
window-not-blank t start end i c lo hi e n =
    elim (Bool-cases (is_empty (strip (slice start end t)))) [
      | inl blank ↦ cc (
        n,
        IsBlank-nth (slice start end t) (i - start) c
            (IsBlank-strip (slice start end t) (empty→eq (strip (slice start end t)) blank))
            (slice-nth t start end i lo hi ∙ e),
      )
      | inr full ↦ full
    ]

module _ (size overlap : ℕ) (document_id : Json) (page : ParsedPage) (text : Text) where
  window_chunks-Covers :
      (k start end i c : ℕ)
      → start ≤ i
      → i < end
      → end ≤ length text
      → end ≤ start + size
      → get_elem? text i ≡ some c
      → is_space c ≡ false
      → Any
          (Covers size document_id page text i)
          (window_of size overlap document_id page text k start end)
  unfolding window_chunks text_chunk
  window_chunks-Covers k start end i c lo hi inside b e n =
      let kept = window-not-blank text start end i c lo hi e n in
      rw kept (
        inl (
          start,
          end,
          record {
            made = refl;
            nonempty = kept;
            forward = omega arith;
            inside = inside;
            bounded = b;
          },
          lo,
          hi,
        ))

  -- A character that is not white space, at or behind `start`, lies in the window of some chunk.
  pub text_windows-Covers :
      (fuel start k i c : ℕ)
      → 0 < size
      → start ≤ i
      → length text < fuel + start
      → get_elem? text i ≡ some c
      → is_space c ≡ false
      → AnyMade
          (Covers size document_id page text i)
          (text_windows size overlap document_id fuel page text start k)
  unfolding text_windows
  text_windows-Covers zero start k i c p lo h e n = absurd (omega (arith, get_elem?-lt text i c e))
  text_windows-Covers (suc fuel) start k i c p lo h e n =
      let end = min (start + size) (length text) in
      let here = window_of size overlap document_id page text k start end in
      let start' = max (end - overlap) (start + 1) in
      let next = k + length here in
      let inside : i < length text = get_elem?-lt text i c e in
      let more = lt→ltb start (length text) (omega arith) in
      elim (Bool-cases (leb (length text) end)) [
        | inl at_end ↦
            rw (more, at_end)
              (window_chunks-Covers k start end i c lo
                (omega (arith, leb→le (length text) end at_end)) (omega arith) (omega arith) e n)
        | inr early ↦
            rw (more, early)
              (elim (Bool-cases (ltb i end)) [
                | inl here_in ↦
                    add_chunks-AnyMade_left (Covers size document_id page text i) here _
                      (Ends-is_some (Cut size document_id page text) next _ (
                        text_windows-Ends size overlap document_id page text fuel start' next p
                          (omega arith) (omega arith)))
                      (window_chunks-Covers k start end i c lo (ltb→lt i end here_in) (omega arith)
                        (omega arith) e n)
                | inr later ↦
                    add_chunks-AnyMade_right (Covers size document_id page text i) here _
                      (text_windows-Covers fuel start' next i c p (ground arith) (omega arith) e n)
              ])
      ]
