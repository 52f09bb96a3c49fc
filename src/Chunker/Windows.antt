-- ===== src/Chunker/Windows.antt =====
-- The window loop of `chunk_pages` ends, numbers its chunks in order, and cuts each chunk from the
-- stripped text of its page.
use mini_nblm_proto.Prelude.{
  ℕ, zero, suc, ◌+◌, ◌-◌, ◌≤◌, ◌<◌, min, max, refl, inl, inr, List, arith, ltb, leb, ltb→lt,
  Bool-cases, length, slice, is_empty, All, ℕ-Eq, list-Eq, pair-Eq, option-Eq,
}
use mini_nblm_proto.Text.{Text, strip}
use mini_nblm_proto.Json.{Json}
use mini_nblm_proto.Chunker.{ParsedPage, TextChunk, text_chunk, window_chunks, text_windows}
use mini_nblm_proto.Chunker.Cuts.{IsNumbered, Cut, Ends, add_chunks-Ends}

module _ (size overlap : ℕ) (document_id : Json) (page : ParsedPage) (text : Text) where
  abbrev pub window_of : ℕ → ℕ → ℕ → List TextChunk
  window_of k start end = window_chunks size overlap document_id page text k start end

  window_chunks-IsNumbered : (k start end : ℕ) → IsNumbered k (window_of k start end)
  unfolding window_chunks text_chunk
  window_chunks-IsNumbered k start end =
      elim (Bool-cases (is_empty (strip (slice start end text)))) [
        | inl e ↦ rw e tt
        | inr e ↦ rw e (refl, tt)
      ]

  window_chunks-Cut :
      (k start end : ℕ)
      → start < end
      → end ≤ length text
      → end ≤ start + size
      → All (Cut size document_id page text) (window_of k start end)
  unfolding window_chunks text_chunk
  window_chunks-Cut k start end f i b =
      elim (Bool-cases (is_empty (strip (slice start end text)))) [
        | inl e ↦ rw e tt
        | inr e ↦ rw e (
          (start, end, record { made = refl; nonempty = e; forward = f; inside = i; bounded = b }),
          tt,
        )
      ]

  -- With more fuel than characters left the loop ends, with its chunks in order and every chunk cut
  -- from the text.
  pub text_windows-Ends :
      (fuel start k : ℕ)
      → 0 < size
      → start ≤ length text
      → length text < fuel + start
      → Ends
          (Cut size document_id page text)
          k
          (text_windows size overlap document_id fuel page text start k)
  unfolding text_windows
  text_windows-Ends zero start k p l h = absurd (omega arith)
  text_windows-Ends (suc fuel) start k p l h =
      let end = min (start + size) (length text) in
      let here = window_of k start end in
      elim (Bool-cases (ltb start (length text))) [
        | inr out ↦ rw out (record { numbered = tt; next = omega arith }, tt)
        | inl more ↦
            let numbered = window_chunks-IsNumbered k start end in
            let cut =
              window_chunks-Cut k start end (omega (arith, ltb→lt start (length text) more))
                (omega arith) (omega arith) in
            elim (Bool-cases (leb (length text) end)) [
              | inl at_end ↦ rw (more, at_end) (record { numbered = numbered; next = refl }, cut)
              | inr early ↦
                  rw (more, early)
                    (add_chunks-Ends (Cut size document_id page text) here k _ numbered cut (
                      text_windows-Ends fuel (max (end - overlap) (start + 1)) (k + length here) p
                        (omega (arith, ltb→lt start (length text) more)) (omega arith)))
            ]
      ]
