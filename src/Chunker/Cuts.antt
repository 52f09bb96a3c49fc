-- ===== src/Chunker/Cuts.antt =====
-- What is said of the chunks that the loops of `chunk_pages` make: their numbers, and the window of
-- the page that each was cut from.
use mini_nblm_proto.Prelude.{
  ℕ, suc, ◌+◌, ◌≤◌, ◌<◌, ◌≡◌, refl, true, false, Option, none, some, List, [], ◌∷◌, ◌++◌, arith,
  is_some, length, slice, is_empty, All, Any, length-append, All-append, Any-append_left,
  Any-append_right, ℕ-Eq, list-Eq, pair-Eq, option-Eq,
}
use mini_nblm_proto.Text.{Text, strip}
use mini_nblm_proto.Json.{Json}
use mini_nblm_proto.Chunker.{ParsedPage, TextChunk, Made, add_chunks, text_chunk}

-- The chunks carry consecutive numbers from `k` on.
abbrev pub IsNumbered : ℕ → List TextChunk → Type 0
IsNumbered k [] = Unit
IsNumbered k (c ∷ cs) = (c.chunk_index ≡ k) × IsNumbered (k + 1) cs

pub IsNumbered-append :
    (k : ℕ) (cs ds : List TextChunk)
    → IsNumbered k cs
    → IsNumbered (k + length cs) ds
    → IsNumbered k (cs ++ ds)
IsNumbered-append k [] ds h g = let e : k + 0 ≡ k = omega arith in rw e at g
IsNumbered-append k (c ∷ cs) ds h g =
    let e : k + suc (length cs) ≡ k + 1 + length cs = omega arith in
    (h.0, IsNumbered-append (k + 1) cs ds h.1 (rw e at g))

-- `c` is the chunk of the window from `start` to `end` of a page's text.
pub record IsCut (size : ℕ) (document_id : Json) (page : ParsedPage) (text : Text) (c : TextChunk)
    (start end : ℕ) : Type 0 where
  pub made : c ≡ text_chunk document_id page c.chunk_index (strip (slice start end text)) start end
  pub nonempty : is_empty c.content ≡ false
  pub forward : start < end
  pub inside : end ≤ length text
  pub bounded : end ≤ start + size

abbrev pub Cut : ℕ → Json → ParsedPage → Text → TextChunk → Type 0
Cut size document_id page text c =
    (start : ℕ) × (end : ℕ) × IsCut size document_id page text c start end

-- Position `i` of the text lies in the window of `c`.
abbrev pub Covers : ℕ → Json → ParsedPage → Text → ℕ → TextChunk → Type 0
Covers size document_id page text i c =
    (start : ℕ) × (end : ℕ) × IsCut size document_id page text c start end × (start ≤ i) × (i < end)

-- What the loop has made from `k` on.
pub record IsMade (k : ℕ) (made : Made) : Type 0 where
  pub numbered : IsNumbered k made.0
  pub next : made.1 ≡ k + length made.0

-- Some chunk of what was made has `P`.
abbrev pub AnyMade : (TextChunk → Type 0) → Option Made → Type 0
AnyMade P none = ⊥
AnyMade P (some made) = Any P made.0

pub add_chunks-AnyMade_left :
    (P : TextChunk → Type 0) (here : List TextChunk) (rest : Option Made)
    → is_some rest ≡ true
    → Any P here
    → AnyMade P (add_chunks here rest)
add_chunks-AnyMade_left P here none e h = cc
add_chunks-AnyMade_left P here (some (later, next)) e h = Any-append_left P here later h

pub add_chunks-AnyMade_right :
    (P : TextChunk → Type 0) (here : List TextChunk) (rest : Option Made)
    → AnyMade P rest
    → AnyMade P (add_chunks here rest)
add_chunks-AnyMade_right P here none h = h
add_chunks-AnyMade_right P here (some (later, next)) h = Any-append_right P here later h

-- What a stretch of the loop has made, when it has ended: chunks numbered from `k` on, all with `P`.
abbrev pub Ends : (TextChunk → Type 0) → ℕ → Option Made → Type 0
Ends P k none = ⊥
Ends P k (some made) = IsMade k made × All P made.0

pub add_chunks-Ends :
    (P : TextChunk → Type 0) (here : List TextChunk) (k : ℕ) (rest : Option Made)
    → IsNumbered k here
    → All P here
    → Ends P (k + length here) rest
    → Ends P k (add_chunks here rest)
add_chunks-Ends P here k none hn hc h = h
add_chunks-Ends P here k (some (later, next)) hn hc h = (
  record {
    numbered = IsNumbered-append k here later hn h.0.numbered;
    next = omega (arith, h.0.next, length-append here later);
  },
  All-append P here later hc h.1,
)

pub Ends-is_some :
    (P : TextChunk → Type 0) (k : ℕ) (o : Option Made) → Ends P k o → is_some o ≡ true
Ends-is_some P k none h = absurd h
Ends-is_some P k (some made) h = refl
