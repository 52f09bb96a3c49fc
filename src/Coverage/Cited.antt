-- ===== src/Coverage/Cited.antt =====
-- The chunks and the searches that an accepted judgement names.
use mini_nblm_proto.Prelude.{
  ℕ, ◌+◌, ◌≤◌, ◌≡◌, refl, Bool, true, false, some, List, [], ◌∷◌, map, arith, nat_eq, length, All,
  Any, contains, Distinct, contains_head, ℕ-Eq, list-Eq, pair-Eq, option-Eq, Result, ok, err,
}
use mini_nblm_proto.Text.{Text, normalize_space}
use mini_nblm_proto.Prelude.Holds.{Holds, Holds-bind, Holds-imp, Holds-found}
use mini_nblm_proto.Json.{Json, null, bool, real, int, str, arr, obj, items}
use mini_nblm_proto.Evidence.{RetrievedChunk, EvidenceReference}
use mini_nblm_proto.Retrieval.Queries.{EvidenceGoal}
use mini_nblm_proto.Coverage.Response.{
  CoverageError, Reading, chunk_with, id_value, cite, parse_references, unknown_chunk_id,
  references_from, retry_queries_from, normalize_retry_queries,
}
use mini_nblm_proto.Coverage.Lookup.{find_last-keyed, find_last-Any}

-- At most three queries, with those kept before.
retry_queries_from_bound :
    (x : Reading) (count : ℕ) (seen : List Text) (values : List Json)
    → count ≤ 2
    → Holds (λ queries. count + length queries ≤ 3) (retry_queries_from x count seen values)
unfolding retry_queries_from
retry_queries_from_bound x count seen [] l = omega (arith, l)
retry_queries_from_bound x count seen (null ∷ values) l = tt
retry_queries_from_bound x count seen (bool b ∷ values) l = tt
retry_queries_from_bound x count seen (int n ∷ values) l = tt
retry_queries_from_bound x count seen (real t ∷ values) l = tt
retry_queries_from_bound x count seen (arr vs ∷ values) l = tt
retry_queries_from_bound x count seen (obj d ∷ values) l = tt
retry_queries_from_bound x count seen (str value ∷ values) l = ground (
  arith,
  retry_queries_from_bound x count seen values,
  retry_queries_from_bound x (count + 1) (x.casefold (normalize_space value) ∷ seen) values,
)

module _ {S : Type 0} where
  -- The reference names a chunk of the list, with its title and pages.
  abbrev pub IsCitationOf : List (RetrievedChunk S) → EvidenceReference → Type 0
  IsCitationOf chunks reference =
      Any
        (λ chunk.
          (chunk.chunk_id ≡ reference.chunk_id)
          × (chunk.document_title ≡ reference.document_title)
          × (chunk.page_start ≡ reference.page_start)
          × (chunk.page_end ≡ reference.page_end))
        chunks

  -- References to chunks, each once and none of the ids `cited` before.
  pub record AreCitations (chunks : List (RetrievedChunk S)) (cited : List ℕ)
      (references : List EvidenceReference) : Type 0 where
    pub known : All (IsCitationOf chunks) references
    pub once : Distinct (map (λ reference. reference.chunk_id) references)
    pub fresh :
        (k : ℕ)
        → contains cited k ≡ true
        → contains (map (λ reference. reference.chunk_id) references) k ≡ false

  module _ (x : Reading) (goals : List EvidenceGoal) (chunks : List (RetrievedChunk S)) where
    cited_chunk :
        (n : ℕ) (chunk : RetrievedChunk S)
        → chunk_with x goals chunks n ≡ some chunk
        → Any
            (λ c.
              (c.chunk_id ≡ n)
              × (c.document_title ≡ chunk.document_title)
              × (c.page_start ≡ chunk.page_start)
              × (c.page_end ≡ chunk.page_end))
            chunks
    cited_chunk n chunk found =
        let has_id : RetrievedChunk S → Bool = λ c. nat_eq c.chunk_id n in
        let key = find_last-keyed has_id chunks found in
        find_last-Any _ has_id chunks found
          ((ℕ-Eq.eqb_iff chunk.chunk_id n).0 key, refl, refl, refl)

    cite-AreCitations :
        (n : ℕ) (chunk : RetrievedChunk S) (cited : List ℕ) (b : Bool)
        (skipped more : Result CoverageError (List EvidenceReference))
        → contains cited n ≡ b
        → chunk_with x goals chunks n ≡ some chunk
        → Holds (AreCitations chunks cited) skipped
        → Holds (AreCitations chunks (n ∷ cited)) more
        → Holds (AreCitations chunks cited) (cite x goals chunks b n chunk skipped more)
    cite-AreCitations n chunk cited true skipped more e found s m = s
    cite-AreCitations n chunk cited false skipped (err _) e found s m = tt
    cite-AreCitations n chunk cited false skipped (ok references) e found s m = record {
      known = (cited_chunk n chunk found, m.known);
      once = (m.fresh n (contains_head n cited), m.once);
      fresh = λ k h. ground (arith, m.fresh k, h, e, ℕ-Eq.eqb_iff n k);
    }

    -- The references of a list of cited ids, with the ids cited before.
    references_from-AreCitations :
        (cited : List ℕ) (raws : List Json)
        → Holds (AreCitations chunks cited) (references_from x goals chunks cited raws)
    unfolding references_from
    references_from-AreCitations cited [] = record { known = tt; once = tt; fresh = λ k h. refl }
    references_from-AreCitations cited (raw ∷ raws) =
        Holds-bind (AreCitations chunks cited) (id_value x goals chunks raw) _ (λ n h.
          Holds-found (AreCitations chunks cited) (chunk_with x goals chunks n) unknown_chunk_id _
            (λ chunk found.
              cite-AreCitations n chunk cited (contains cited n) _ _ refl found
                (references_from-AreCitations cited raws)
                (references_from-AreCitations (n ∷ cited) raws)))

    pub parse_references-AreCitations :
        (raw : Json) → Holds (AreCitations chunks []) (parse_references x goals chunks raw)
    parse_references-AreCitations (arr values) = references_from-AreCitations [] (items values)
    parse_references-AreCitations null = tt
    parse_references-AreCitations (bool b) = tt
    parse_references-AreCitations (int n) = tt
    parse_references-AreCitations (real t) = tt
    parse_references-AreCitations (str t) = tt
    parse_references-AreCitations (obj d) = tt

    pub normalize_retry_queries_bound :
        (raw : Json) → Holds (λ queries. length queries ≤ 3) (normalize_retry_queries x raw)
    unfolding normalize_retry_queries
    normalize_retry_queries_bound (arr values) =
        Holds-imp _ _ (retry_queries_from x 0 [] (items values)) (λ queries h. omega (arith, h))
          (retry_queries_from_bound x 0 [] (items values) (omega arith))
    normalize_retry_queries_bound null = tt
    normalize_retry_queries_bound (bool b) = tt
    normalize_retry_queries_bound (int n) = tt
    normalize_retry_queries_bound (real t) = tt
    normalize_retry_queries_bound (str t) = tt
    normalize_retry_queries_bound (obj d) = tt
