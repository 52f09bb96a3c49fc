-- ===== src/Tests/Chunks.antt =====
-- Chunking on concrete input.
use mini_nblm_proto.Prelude.{
  ◌≡◌, refl, some, List, [], ◌∷◌, arith, All, Any, ℕ-Eq, list-Eq, pair-Eq, option-Eq,
}
use mini_nblm_proto.Text.{Text, strip, lstrip, rstrip, is_space}
use mini_nblm_proto.Json.{Json, null}
use mini_nblm_proto.Chunker.{TextChunk, chunk_pages}
use mini_nblm_proto.Chunker.Cuts.{IsNumbered, Covers}
use mini_nblm_proto.Chunker.Pages.{chunk_pages-total, FromPages}
use mini_nblm_proto.Chunker.Kept.{chunk_pages-Covers}
use mini_nblm_proto.Tests.Data.{one_page}

abbrev no_text : Json → Text
no_text j = []

chunk_pages-total_example :
    (chunks : List TextChunk) × (chunk_pages 4 2 null no_text (one_page ∷ []) ≡ some chunks)
    × IsNumbered 0 chunks
    × All (FromPages 4 2 null no_text (one_page ∷ [])) chunks
chunk_pages-total_example = chunk_pages-total 4 2 null no_text (one_page ∷ []) (omega arith)

abbrev made : List TextChunk
made = (chunk_pages-total 4 2 null no_text (one_page ∷ []) (omega arith)).0

chunk_pages-Covers_example : Any (Covers 4 null one_page (strip one_page.text) 4) made
unfolding strip lstrip rstrip is_space
chunk_pages-Covers_example =
    chunk_pages-Covers 4 2 null no_text one_page [] 4 100 (omega arith) [] made
      (chunk_pages-total 4 2 null no_text (one_page ∷ []) (omega arith)).1 refl refl
