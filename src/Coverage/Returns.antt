-- ===== src/Coverage/Returns.antt =====
-- When `complete_evidence_coverage` ends without an exception.
use mini_nblm_proto.Prelude.{
  ℕ, zero, suc, ◌+◌, ◌≡◌, refl, sym, ap, ◌↔◌, Bool, true, false, ◌||◌, not, Option, none, some,
  List, [], ◌∷◌, arith, if◌then◌else◌, is_some, is_empty, ℕ-Eq, list-Eq, pair-Eq, option-Eq, Result,
  ok, err, ◌>>=◌,
}
use mini_nblm_proto.Text.{Text, codes}
use mini_nblm_proto.Evidence.{RetrievedChunk}
use mini_nblm_proto.Retrieval.Queries.{EvidenceGoal}
use mini_nblm_proto.Coverage.{
  Completion, retry_goal, CompletionError, CoverageEvent, complete_evidence_coverage, judged,
  record_assessment, retry_goals, retry_loop, retry_round, searched, sufficient, search_failed,
  missing_argument,
}
use mini_nblm_proto.Coverage.Response.{GoalCoverage, Assessment, Reading, is_supported}
use mini_nblm_proto.Coverage.Request.{Chat, assess_evidence_coverage}
use mini_nblm_proto.Coverage.Merge.{merge_retry_chunks}
use mini_nblm_proto.Coverage.Planned.{Planned, AllPlanned, assess-AllPlanned}

-- A call that ends with a value.
abbrev pub Returns : {X V : Type 0} → Result X V → Type 0
Returns (err e) = ⊥
Returns (ok v) = Unit

retry_goal-Returns :
    (result : GoalCoverage) (found : Option EvidenceGoal)
    (rest : Result CompletionError (List EvidenceGoal))
    → is_some found ≡ true
    → Returns rest
    → Returns (retry_goal result found rest)
retry_goal-Returns result none rest f h = ground (arith, f)
retry_goal-Returns result (some goal) (err e) f h = h
retry_goal-Returns result (some goal) (ok goals) f h = tt

Returns-if :
    {X V : Type 0} (b : Bool) (first second : Result X V)
    → Returns first
    → Returns second
    → Returns (if b then first else second)
Returns-if true first second h k = h
Returns-if false first second h k = k

Returns-bind :
    {X V W : Type 0} (first : Result X V) (rest : V → Result X W)
    → Returns first
    → ((v : V) → first ≡ ok v → Returns (rest v))
    → Returns (first >>= rest)
Returns-bind (err e) rest h k = h
Returns-bind (ok v) rest h k = k v refl

retry_goals-Returns :
    (goals : List EvidenceGoal) (a : Assessment) → Planned goals a → Returns (retry_goals goals a)
unfolding retry_goals
retry_goals-Returns goals [] h = tt
retry_goals-Returns goals (result ∷ results) h =
    let rest = retry_goals-Returns goals results h.1 in
    Returns-if (is_supported result.status) _ _ rest (retry_goal-Returns result _ _ h.0 rest)

raised : {X V : Type 0} {e f : X} → ◌≡◌ {A = Result X V} (err e) (err f) → f ≡ e
raised h = cc

-- The two tests at the start of a request.
ends :
    {X V : Type 0} (no_goals no_chunks : Bool) (unchanged first : Result X V) {missing : X} (e : X)
    → Returns unchanged
    → Returns first
    → ((if no_goals then unchanged else if no_chunks then err missing else first) ≡ err e)
      ↔ ((no_goals ≡ false) × (no_chunks ≡ true) × (e ≡ missing))
ends true no_chunks (err x) first e r s = elim r [ ]
ends true no_chunks (ok v) first e r s = (λ h. cc, λ h. ground (arith, h.0))
ends false true unchanged first e r s = (λ h. (refl, refl, raised h), λ h. ap err (sym h.2))
ends false false unchanged (err x) e r s = elim s [ ]
ends false false unchanged (ok v) e r s = (λ h. cc, λ h. ground (arith, h.1))

starts :
    {X V : Type 0} (no_goals no_chunks : Bool) (unchanged first : Result X V) (missing : X)
    → (no_goals || not no_chunks) ≡ true
    → Returns unchanged
    → Returns first
    → Returns (if no_goals then unchanged else if no_chunks then err missing else first)
starts true no_chunks unchanged first missing h r s = r
starts false true unchanged first missing h r s = ground (arith, h)
starts false false unchanged first missing h r s = s

module _ {S : Type 0} (x : Reading) (goals : List EvidenceGoal) where
  Returns-judged :
      (more : Assessment → Result CompletionError (Completion S)) (chunks : List (RetrievedChunk S))
      (actions : ℕ) (events : List CoverageEvent) (assessment : Option Assessment)
      → AllPlanned goals assessment
      → ((a : Assessment) → Planned goals a → Returns (more a))
      → Returns (judged more chunks actions events assessment)
  Returns-judged more chunks actions events none p h = tt
  Returns-judged more chunks actions events (some a) p h = Returns-if (sufficient a) _ _ tt (h a p)

  module _ (chat : ℕ → Chat)
      (search : ℕ → List EvidenceGoal → Result Text (List (RetrievedChunk S)))
      (works : (actions : ℕ) (wanted : List EvidenceGoal) → Returns (search actions wanted)) where
    searched-Returns :
        (actions : ℕ) (wanted : List EvidenceGoal)
        → Returns (searched x chat search goals actions wanted)
    searched-Returns actions wanted = go (search actions wanted) (works actions wanted)
      where
        go :
            (found : Result Text (List (RetrievedChunk S)))
            → Returns found
            → Returns {X = CompletionError} {V = List (RetrievedChunk S)}
                (elim found [ ok chunks ↦ ok chunks | err message ↦ err (search_failed message) ])
        go (err message) h = h
        go (ok chunks) h = tt

    Returns-retry_round :
        (more : Assessment
          → List (RetrievedChunk S)
          → List CoverageEvent
          → Result CompletionError (Completion S))
        (actions : ℕ) (chunks : List (RetrievedChunk S)) (events : List CoverageEvent)
        (wanted : List EvidenceGoal)
        → ((a : Assessment) (merged : List (RetrievedChunk S)) (events' : List CoverageEvent)
            → Planned goals a
            → Returns (more a merged events'))
        → Returns (retry_round x chat search goals more actions chunks events wanted)
    unfolding retry_round
    Returns-retry_round more actions chunks events [] h = tt
    Returns-retry_round more actions chunks events (goal ∷ wanted) h =
        Returns-bind (searched x chat search goals (actions + 1) (goal ∷ wanted)) _
          (searched-Returns (actions + 1) (goal ∷ wanted))
          (λ supplemental found.
            let merged = merge_retry_chunks chunks supplemental in
            let assessment = assess_evidence_coverage x (chat (actions + 1)) goals merged in
            let events' = record_assessment events (actions + 1) goals assessment in
            Returns-judged _ merged (actions + 1) events' assessment
              (assess-AllPlanned x goals (chat (actions + 1)) merged) (λ a p. h a merged events' p))

    Returns-retry_loop :
        (budget actions : ℕ) (a : Assessment) (chunks : List (RetrievedChunk S))
        (events : List CoverageEvent)
        → Planned goals a
        → Returns (retry_loop x chat search goals budget actions a chunks events)
    unfolding retry_loop
    Returns-retry_loop zero actions a chunks events p = tt
    Returns-retry_loop (suc budget) actions a chunks events p =
        Returns-bind (retry_goals goals a) _ (retry_goals-Returns goals a p) (λ wanted e.
          Returns-retry_round _ actions chunks events wanted
            (λ a' merged events' p'. Returns-retry_loop budget (actions + 1) a' merged events' p'))

    Returns-first :
        (chunks : List (RetrievedChunk S)) (events : List CoverageEvent)
        → Returns (
            judged
              (λ a. retry_loop x chat search goals 2 0 a chunks events)
              chunks
              0
              events
              (assess_evidence_coverage x (chat 0) goals chunks))
    Returns-first chunks events =
        Returns-judged _ chunks 0 events (assess_evidence_coverage x (chat 0) goals chunks)
          (assess-AllPlanned x goals (chat 0) chunks)
          (λ a p. Returns-retry_loop 2 0 a chunks events p)

    -- When no search fails, a request that starts with at least one chunk, or that has no goals, ends
    -- without an exception, whatever the model answers.
    pub complete_evidence_coverage-Returns :
        (chunks : List (RetrievedChunk S))
        → (is_empty goals || not (is_empty chunks)) ≡ true
        → Returns (complete_evidence_coverage x chat search goals chunks)
    unfolding complete_evidence_coverage
    complete_evidence_coverage-Returns chunks h =
        let events =
          record_assessment [] 0 goals (assess_evidence_coverage x (chat 0) goals chunks) in
        starts (is_empty goals) (is_empty chunks) _ _ _ h tt (Returns-first chunks events)

    -- When no search fails, a request ends with an exception exactly when it has goals and starts
    -- without chunks, and the exception is then the `TypeError` of the missing argument `question`.
    pub complete_evidence_coverage-err :
        (chunks : List (RetrievedChunk S)) (e : CompletionError)
        → (complete_evidence_coverage x chat search goals chunks ≡ err e) ↔ (
            (is_empty goals ≡ false)
            × (is_empty chunks ≡ true)
            × (e ≡ missing_argument (codes "question")))
    unfolding complete_evidence_coverage
    complete_evidence_coverage-err chunks e =
        let events =
          record_assessment [] 0 goals (assess_evidence_coverage x (chat 0) goals chunks) in
        ends (is_empty goals) (is_empty chunks) _ _ e tt (Returns-first chunks events)
