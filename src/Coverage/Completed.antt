-- ===== src/Coverage/Completed.antt =====
-- What `complete_evidence_coverage` ends with: its limits, what it keeps, and when it fails.
use mini_nblm_proto.Prelude.{
  ℕ, zero, suc, ◌+◌, ◌≤◌, ◌≡◌, refl, sym, ◌∙◌, Bool, true, false, Option, none, some, List, [], ◌∷◌,
  ◌++◌, append_assoc, append-nil, arith, if◌then◌else◌, is_empty, ℕ-Eq, list-Eq, pair-Eq, option-Eq,
  Result, ok, err, ◌>>=◌,
}
use mathlib.Core.Path.{subst}
use mini_nblm_proto.Text.{Text}
use mini_nblm_proto.Evidence.{RetrievedChunk}
use mini_nblm_proto.Retrieval.Queries.{EvidenceGoal}
use mini_nblm_proto.Coverage.{
  Completion, CompletionError, CoverageEvent, complete_evidence_coverage, done, judged,
  record_assessment, retry_goals, retry_loop, retry_round, searched, sufficient,
}
use mini_nblm_proto.Coverage.Response.{Assessment, Reading}
use mini_nblm_proto.Coverage.Request.{Chat, assess_evidence_coverage}
use mini_nblm_proto.Coverage.Merge.{IsBounded, merge_retry_chunks, merge_retry_chunks-IsBounded}

module _ {S : Type 0} where
  -- The completion keeps the chunks `start` in front, stays within the limits of a merge, and took at
  -- most `most` searches.
  pub record IsCompleted (start : List (RetrievedChunk S)) (most : ℕ) (c : Completion S)
      : Type 0 where
    pub added : List (RetrievedChunk S)
    pub kept : c.chunks ≡ start ++ added
    pub bounded : IsBounded c.chunks
    pub budget : c.actions ≤ most

  -- A result that is an exception, or such a completion.
  abbrev pub EndsWell : List (RetrievedChunk S) → ℕ → Result CompletionError (Completion S) → Type 0
  EndsWell start most (err e) = Unit
  EndsWell start most (ok c) = IsCompleted start most c

  IsCompleted-done :
      (start added chunks : List (RetrievedChunk S)) (actions most : ℕ)
      (events : List CoverageEvent)
      → chunks ≡ start ++ added
      → IsBounded chunks
      → actions ≤ most
      → EndsWell start most (done chunks actions events)
  IsCompleted-done start added chunks actions most events e b l = record {
    added = added;
    kept = e;
    bounded = b;
    budget = l;
  }

  EndsWell-if :
      (start : List (RetrievedChunk S)) (most : ℕ) (b : Bool)
      (first second : Result CompletionError (Completion S))
      → EndsWell start most first
      → EndsWell start most second
      → EndsWell start most (if b then first else second)
  EndsWell-if start most true first second h k = h
  EndsWell-if start most false first second h k = k

  EndsWell-judged :
      (more : Assessment → Result CompletionError (Completion S))
      (start chunks : List (RetrievedChunk S)) (actions most : ℕ) (events : List CoverageEvent)
      (assessment : Option Assessment)
      → EndsWell start most (done chunks actions events)
      → ((a : Assessment) → EndsWell start most (more a))
      → EndsWell start most (judged more chunks actions events assessment)
  EndsWell-judged more start chunks actions most events none d m = d
  EndsWell-judged more start chunks actions most events (some a) d m =
      EndsWell-if start most (sufficient a) (done chunks actions events) (more a) d (m a)

  EndsWell-bind :
      {V : Type 0} (start : List (RetrievedChunk S)) (most : ℕ) (first : Result CompletionError V)
      (rest : V → Result CompletionError (Completion S))
      → ((v : V) → EndsWell start most (rest v))
      → EndsWell start most (first >>= rest)
  EndsWell-bind start most (err e) rest h = tt
  EndsWell-bind start most (ok v) rest h = h v

  module _ (x : Reading) (chat : ℕ → Chat)
      (search : ℕ → List EvidenceGoal → Result Text (List (RetrievedChunk S)))
      (goals : List EvidenceGoal) where
    -- One round from a state with `chunk ∷ start` in front, when the rest of the loop ends well.
    EndsWell-retry_round :
        (more : Assessment
          → List (RetrievedChunk S)
          → List CoverageEvent
          → Result CompletionError (Completion S))
        (actions : ℕ) (chunk : RetrievedChunk S) (start added : List (RetrievedChunk S))
        (events : List CoverageEvent) (most : ℕ) (wanted : List EvidenceGoal)
        → IsBounded ((chunk ∷ start) ++ added)
        → actions + 1 ≤ most
        → ((a : Assessment) (added' : List (RetrievedChunk S)) (events' : List CoverageEvent)
            → IsBounded ((chunk ∷ start) ++ added')
            → EndsWell (chunk ∷ start) most (more a ((chunk ∷ start) ++ added') events'))
        → EndsWell
            (chunk ∷ start)
            most
            (retry_round x chat search goals more actions ((chunk ∷ start) ++ added) events wanted)
    unfolding retry_round
    EndsWell-retry_round more actions chunk start added events most [] b l h =
        IsCompleted-done (chunk ∷ start) added ((chunk ∷ start) ++ added) actions most events refl b
          (omega arith)
    EndsWell-retry_round more actions chunk start added events most (goal ∷ wanted) b l h =
        EndsWell-bind (chunk ∷ start) most
          (searched x chat search goals (actions + 1) (goal ∷ wanted)) _
          (λ supplemental.
            let both = merge_retry_chunks-IsBounded chunk (start ++ added) supplemental b in
            let merged = merge_retry_chunks ((chunk ∷ start) ++ added) supplemental in
            let e = both.0.1 ∙ append_assoc (chunk ∷ start) added both.0.0 in
            let assessment = assess_evidence_coverage x (chat (actions + 1)) goals merged in
            let events' = record_assessment events (actions + 1) goals assessment in
            EndsWell-judged _ (chunk ∷ start) merged (actions + 1) most events' assessment
              (IsCompleted-done (chunk ∷ start) (added ++ both.0.0) merged (actions + 1) most
                events' e both.1 l)
              (λ a.
                subst (λ m. EndsWell (chunk ∷ start) most (more a m events')) (sym e)
                  (h a (added ++ both.0.0) events' (subst IsBounded e both.1))))

    -- The loop from such a state: `budget` more searches at most.
    EndsWell-retry_loop :
        (budget actions : ℕ) (a : Assessment) (chunk : RetrievedChunk S)
        (start added : List (RetrievedChunk S)) (events : List CoverageEvent) (most : ℕ)
        → IsBounded ((chunk ∷ start) ++ added)
        → actions + budget ≤ most
        → EndsWell
            (chunk ∷ start)
            most
            (retry_loop x chat search goals budget actions a ((chunk ∷ start) ++ added) events)
    unfolding retry_loop
    EndsWell-retry_loop zero actions a chunk start added events most b l =
        IsCompleted-done (chunk ∷ start) added ((chunk ∷ start) ++ added) actions most events refl b
          (omega arith)
    EndsWell-retry_loop (suc budget) actions a chunk start added events most b l =
        EndsWell-bind (chunk ∷ start) most (retry_goals goals a) _ (λ wanted.
          EndsWell-retry_round _ actions chunk start added events most wanted b (omega (arith, l))
            (λ a' added' events' b'.
              EndsWell-retry_loop budget (actions + 1) a' chunk start added' events' most b'
                (omega (arith, l))))

    EndsWell-loop :
        (chunk : RetrievedChunk S) (chunks : List (RetrievedChunk S)) (a : Assessment)
        (events : List CoverageEvent)
        → IsBounded (chunk ∷ chunks)
        → EndsWell (chunk ∷ chunks) 2 (retry_loop x chat search goals 2 0 a (chunk ∷ chunks) events)
    EndsWell-loop chunk chunks a events b =
        let e = append-nil (chunk ∷ chunks) in
        subst (λ cs. EndsWell (chunk ∷ chunks) 2 (retry_loop x chat search goals 2 0 a cs events)) e
          (EndsWell-retry_loop 2 0 a chunk chunks [] events 2 (subst IsBounded (sym e) b)
            (omega arith))

    EndsWell-complete :
        (chunks : List (RetrievedChunk S))
        → IsBounded chunks
        → EndsWell chunks 2 (complete_evidence_coverage x chat search goals chunks)
    unfolding complete_evidence_coverage
    EndsWell-complete [] b =
        EndsWell-if [] 2 (is_empty goals) _ _
          (IsCompleted-done [] [] [] 0 2 [] refl b (omega arith)) tt
    EndsWell-complete (chunk ∷ chunks) b =
        let unchanged = sym (append-nil (chunk ∷ chunks)) in
        let assessment = assess_evidence_coverage x (chat 0) goals (chunk ∷ chunks) in
        let events = record_assessment [] 0 goals assessment in
        EndsWell-if (chunk ∷ chunks) 2 (is_empty goals) _ _
          (IsCompleted-done (chunk ∷ chunks) [] (chunk ∷ chunks) 0 2 [] unchanged b (omega arith))
          (EndsWell-judged _ (chunk ∷ chunks) (chunk ∷ chunks) 0 2 events assessment
            (IsCompleted-done (chunk ∷ chunks) [] (chunk ∷ chunks) 0 2 events unchanged b
              (omega arith))
            (λ a. EndsWell-loop chunk chunks a events b))

    -- When the chunks at the start are within the limits (each chunk once, at most 16, at most 24,000
    -- characters) and the request ends without an exception, its chunks are those of the start, in
    -- front and unchanged, with more behind them; they are within the same limits; and at most two
    -- searches were made, whatever the model and the searches answered.
    pub complete_evidence_coverage-IsCompleted :
        (chunks : List (RetrievedChunk S)) (c : Completion S)
        → IsBounded chunks
        → complete_evidence_coverage x chat search goals chunks ≡ ok c
        → IsCompleted chunks 2 c
    complete_evidence_coverage-IsCompleted chunks c b h =
        subst (EndsWell chunks 2) h (EndsWell-complete chunks b)
