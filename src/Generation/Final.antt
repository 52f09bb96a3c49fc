-- ===== src/Generation/Final.antt =====
-- What the reader ends up with: the text that is shown and the list of sources.
use mini_nblm_proto.Prelude.{
  ℕ, zero, suc, ◌≡◌, refl, sym, ap, Bool, true, false, Option, none, some, List, [], ◌∷◌, map,
  append-nil, if◌then◌else◌, or_else, take, ◌==◌, Distinct, Distinct-take, ℕ-Eq, list-Eq, pair-Eq,
  option-Eq, ok, ◌>>=◌, branches,
}
use mathlib.Core.Path.{subst}
use mini_nblm_proto.Prelude.Dedup.{keep_new, keep_new-Distinct}
use mini_nblm_proto.Prelude.Holds.{Holds, Holds-bind, Holds-eq}
use mini_nblm_proto.Text.{Text}
use mini_nblm_proto.Json.{Json}
use mini_nblm_proto.Evidence.{RetrievedChunk, EvidenceMatrix}
use mini_nblm_proto.Conversation.{Message}
use mini_nblm_proto.Prompt.{select_generation_chunks}
use mini_nblm_proto.Prompt.Messages.{PromptMessage}
use mini_nblm_proto.Generation.{
  Delivery, StreamedAnswer, at_once, early_answer, shown_text, stream_attempts,
  streamed_answer_from, streamed_fallback, streaming_answer,
}
use mini_nblm_proto.Generation.Stream.{Normalizer, concat, normalize_source_decision}
use mini_nblm_proto.Generation.Sources.{
  GeneratedAnswer, SourceRef, extract, extractive_chunks, extractive_context_fallback,
  source_location, source_ref, sources_for_citations,
}
use mini_nblm_proto.Generation.Attempts.{
  restore_literals, Generator, Inputs, generation_inputs, settle_answer,
}

-- The page of a source.
abbrev pub source_page_of : SourceRef → ℕ × Option ℕ
source_page_of source = (source.document_id, source.page)

-- No page is listed twice.
abbrev pub OncePerPage : List SourceRef → Type 0
OncePerPage sources = Distinct (map source_page_of sources)

module _ {S : Type 0} where
  pages_of_refs :
      (chunks : List (RetrievedChunk S))
      → map source_page_of (map source_ref chunks) ≡ map source_location chunks
  pages_of_refs [] = refl
  pages_of_refs (chunk ∷ chunks) = ap (λ ps. source_location chunk ∷ ps) (pages_of_refs chunks)

  take_locations :
      (n : ℕ) (chunks : List (RetrievedChunk S))
      → map source_location (take n chunks) ≡ take n (map source_location chunks)
  take_locations zero chunks = refl
  take_locations (suc n) [] = refl
  take_locations (suc n) (chunk ∷ chunks) =
      ap (λ ps. source_location chunk ∷ ps) (take_locations n chunks)

  OncePerPage-refs :
      (chunks : List (RetrievedChunk S))
      → Distinct (map source_location chunks)
      → OncePerPage (map source_ref chunks)
  OncePerPage-refs chunks h = subst Distinct (sym (pages_of_refs chunks)) h

  extract-OncePerPage :
      (chunks : List (RetrievedChunk S))
      → Distinct (map source_location chunks)
      → OncePerPage (extract chunks).sources
  extract-OncePerPage [] h = tt
  extract-OncePerPage (chunk ∷ chunks) h = OncePerPage-refs (chunk ∷ chunks) h

  fallback-OncePerPage :
      (str_of : Json → Text) (chunks : List (RetrievedChunk S))
      (evidence_matrix : Option EvidenceMatrix)
      → OncePerPage (extractive_context_fallback str_of chunks evidence_matrix).sources
  unfolding extractive_context_fallback extractive_chunks
  fallback-OncePerPage str_of chunks evidence_matrix =
      let candidates = select_generation_chunks str_of chunks evidence_matrix 4000 in
      let kept = keep_new source_location (λ (c : RetrievedChunk S). true) [] candidates in
      extract-OncePerPage (take 3 kept) (
        subst Distinct (sym (take_locations 3 kept)) (
          Distinct-take 3 (map source_location kept)
            (keep_new-Distinct source_location (λ c. true) [] candidates)))

  module _ (x : Generator S) (ask : List PromptMessage → Option Text)
      (validate : Text → Option Text) where
    settle_answer-OncePerPage :
        (question : Text) (chunks : List (RetrievedChunk S)) (answer : Text)
        → OncePerPage (settle_answer x question chunks answer).sources
    unfolding settle_answer sources_for_citations
    settle_answer-OncePerPage question chunks answer =
        branches OncePerPage
          (normalize_source_decision x.marks (restore_literals x question answer chunks)).1
          (λ e. OncePerPage-refs _ (keep_new-Distinct source_location (λ c. true) [] _)) (λ e. tt)

    -- The shown text is the answer, and no page is listed twice.
    abbrev pub IsFinal : StreamedAnswer → Type 0
    IsFinal s = (shown_text s ≡ s.generated.answer) × OncePerPage s.generated.sources

    revised_shown :
        (answer visible : Text) (b : Bool)
        → answer == visible ≡ b
        → or_else (if b then none else some answer) visible ≡ answer
    revised_shown answer visible true e = sym (((list-Eq {A = ℕ}).eqb_iff answer visible).0 e)
    revised_shown answer visible false e = refl

    streamed_answer_from-IsFinal :
        (question : Text) (visible : List Text) (found : Normalizer × Inputs x)
        → IsFinal (streamed_answer_from x ask validate question visible found)
    unfolding streamed_answer_from
    streamed_answer_from-IsFinal question visible (normalizer, inputs) =
        (revised_shown _ (concat visible) _ refl, settle_answer-OncePerPage question inputs.0 _)

    streamed_fallback-IsFinal :
        (visible : List Text) (fallback : GeneratedAnswer)
        → OncePerPage fallback.sources
        → IsFinal (streamed_fallback x ask validate visible fallback)
    streamed_fallback-IsFinal [] fallback h = (append-nil fallback.answer, h)
    streamed_fallback-IsFinal (part ∷ parts) fallback h = (refl, h)

    -- Whatever the streams deliver and wherever they break off for lack of room: when a stream ends without
    -- another exception, the text that the reader is left with (the revision if there is one, and else the
    -- parts in order) is the generated answer, and no page of a document is listed twice in its sources.
    pub streaming_answer-IsFinal :
        (deliver : ℕ → List PromptMessage → Delivery) (question : Text)
        (chunks : List (RetrievedChunk S)) (history : List Message)
        (evidence_matrix : Option EvidenceMatrix) (result : StreamedAnswer)
        → streaming_answer x ask validate deliver question chunks history evidence_matrix
          ≡ ok result
        → IsFinal result
    unfolding streaming_answer
    streaming_answer-IsFinal deliver question chunks history evidence_matrix result h =
        Holds-eq IsFinal _ result
          (started (early_answer x ask validate question chunks evidence_matrix)) h
      where
        attempted :
            (visible : List Text) (found : Option (Normalizer × Inputs x))
            → Holds {X = Text} IsFinal (elim found [
              | none ↦ ok (
                  streamed_fallback x ask validate visible
                    (extractive_context_fallback x.str_of chunks evidence_matrix))
              | some found ↦ ok (streamed_answer_from x ask validate question visible found)
            ])
        attempted visible none =
            streamed_fallback-IsFinal visible _
              (fallback-OncePerPage x.str_of chunks evidence_matrix)
        attempted visible (some found) = streamed_answer_from-IsFinal question visible found

        started :
            (early : Option Text)
            → Holds {X = Text} IsFinal (elim early [
              | some answer ↦ ok (at_once answer)
              | none ↦
                  stream_attempts x ask validate deliver 0 []
                    (generation_inputs x question chunks history evidence_matrix)
                  >>= λ result. elim result.1 [
                    | none ↦ ok (
                        streamed_fallback x ask validate result.0
                          (extractive_context_fallback x.str_of chunks evidence_matrix))
                    | some found ↦ ok (streamed_answer_from x ask validate question result.0 found)
                  ]
            ])
        started (some answer) = (append-nil answer, tt)
        started none =
            Holds-bind IsFinal
              (stream_attempts x ask validate deliver 0 []
                (generation_inputs x question chunks history evidence_matrix))
              _ (λ result e. attempted result.0 result.1)
