-- ===== src/Planning.antt =====
-- app/services/query_rewriter.py: a question becomes a standalone query and evidence goals with queries.
pub mod Values
pub mod Payload
pub mod Allocation
pub mod Shared
pub mod Allocated
pub mod Searchable
pub mod Planned
pub mod Always
use mini_nblm_proto.Prelude.{
  ℕ, ◌&&◌, ◌||◌, not, Option, none, some, List, [], ◌∷◌, ◌++◌, map, reverse, if◌then◌else◌, or_else,
  take, is_empty, ◌==◌, contains, ℕ-Eq, list-Eq, pair-Eq, option-Eq, ok, err,
}
use mini_nblm_proto.Text.{Text, codes, join, rstrip, strip, starts_with}
use mini_nblm_proto.Conversation.{Message, Role, user, assistant, other}
use mini_nblm_proto.Retrieval.Queries.{EvidenceGoal}
use mini_nblm_proto.Prompt.Sections.{newline}
use mini_nblm_proto.Planning.Values.{Decoding, max_retrieval_query_chars, strip_quotes}
use mini_nblm_proto.Planning.Payload.{PlanError, RetrievalQueryPlan, normalize_query_plan}

abbrev pub max_previous_question_chars : ℕ
max_previous_question_chars = 500

abbrev pub max_previous_answer_chars : ℕ
max_previous_answer_chars = 1000

-- The question and the answer of the last exchange.
abbrev pub Previous : Type 0
Previous = Option Text × Option Text

-- One message with text: the newest answer is kept, and the search ends at a question.
abbrev latest_step : Role → Option Text → Text → (skipped answered : Previous) → Previous
latest_step user answer content skipped answered =
    (some (take max_previous_question_chars content), answer)
latest_step assistant none content skipped answered = answered
latest_step assistant (some a) content skipped answered = skipped
latest_step other answer content skipped answered = skipped

-- The loop from the newest message back, with the answer found so far.
unfoldable pub latest_from : Option Text → List Message → Previous
unfolding strip
latest_from answer [] = (none, answer)
latest_from answer (message ∷ older) =
    let content = strip message.content in
    let skipped = latest_from answer older in
    let answered = latest_from (some (take max_previous_answer_chars content)) older in
    if is_empty content then skipped else latest_step message.role answer content skipped answered

abbrev said : Role → Option Text → List Message
said role none = []
said role (some content) =
    if is_empty content then [] else record { role = role; content = content } ∷ []

unfoldable pub latest_exchange : List Message → List Message
unfolding latest_from
latest_exchange history =
    let previous = latest_from none (reverse history) in
    said user previous.0 ++ said assistant previous.1

abbrev pub role_name : Role → Text
role_name user = codes "user"
role_name assistant = codes "assistant"
role_name other = []

unfoldable pub format_exchange : List Message → Text
unfolding join
format_exchange exchange =
    if is_empty exchange
    then codes "(none)"
    else join newline (map (λ m. codes "[" ++ role_name m.role ++ codes "] " ++ m.content) exchange)

-- The prompt of the first call behind the exchange.
unfoldable pub plan_request : Text → Text
plan_request question =
    codes "[현재 질문]" ++ newline ++ question ++ newline ++ newline ++ codes "[검색 계획]"

unfoldable pub repair_request : List Message → Text → Text → Text
unfolding format_exchange
repair_request exchange question rewritten =
    codes "Conversation context:"
    ++ newline
    ++ format_exchange exchange
    ++ newline
    ++ newline
    ++ codes "Current question: "
    ++ question
    ++ newline
    ++ newline
    ++ codes "Malformed plan:"
    ++ newline
    ++ take 2000 rewritten
    ++ newline
    ++ newline
    ++ codes "Repaired JSON:"

unfoldable pub fallback_plan : Text → RetrievalQueryPlan
fallback_plan question = record {
  standalone_query = question;
  goals = record { goal_id = codes "g1"; description = question; queries = question ∷ [] } ∷ [];
}

module _ (x : Decoding) where
  -- The lines that are not empty, stripped, without code fences.
  abbrev query_lines : List Text → List Text
  query_lines [] = []
  query_lines (line ∷ lines) =
      let text = strip line in
      let rest = query_lines lines in
      if is_empty text || starts_with (codes "```") text then rest else text ∷ rest

  unfoldable pub normalize_rewritten_query : Text → Text → Text
  unfolding strip starts_with join strip_quotes rstrip
  normalize_rewritten_query rewritten fallback =
      let lines = query_lines (x.splitlines (strip rewritten)) in
      let candidate = strip_quotes (strip (x.strip_label (join (32 ∷ []) lines))) in
      let chosen = if is_empty candidate then fallback else candidate in
      if is_empty lines then fallback else rstrip (take max_retrieval_query_chars chosen)

  -- The plan without the model: a plain answer is taken as a query where it is recognised as one.
  unfoldable pub unplanned : Text → Text → RetrievalQueryPlan
  unfolding normalize_rewritten_query fallback_plan strip
  unplanned rewritten question =
      let normalized = normalize_rewritten_query rewritten question in
      if not (contains rewritten 123)
        && not (contains rewritten 91)
        && (not (normalized == strip rewritten) || x.has_label (strip rewritten))
      then fallback_plan normalized
      else fallback_plan question

  -- An answer of the model, if it is a plan.
  abbrev pub planned : Text → Option Text → Option RetrievalQueryPlan
  planned question none = none
  planned question (some response) = elim (normalize_query_plan x response question) [
    | err e ↦ none
    | ok plan ↦ some plan
  ]

  -- The two calls of the model: the exchange and the request, then the repair request; `none` is an
  -- exception.
  unfoldable pub plan_retrieval_queries :
      (List Message → Text → Option Text)
      → (Text → Option Text)
      → Text
      → List Message
      → RetrievalQueryPlan
  plan_retrieval_queries rewrite repair question history =
      let original = strip question in
      let exchange = latest_exchange history in
      let answer = rewrite exchange (plan_request original) in
      let rewritten = or_else answer [] in
      or_else (planned original answer) (
        or_else (planned original (repair (repair_request exchange original rewritten)))
          (unplanned rewritten original))

  -- `rewrite_retrieval_query`
  unfoldable pub rewrite_retrieval_query :
      (List Message → Text → Option Text) → (Text → Option Text) → Text → List Message → Text
  unfolding plan_retrieval_queries
  rewrite_retrieval_query rewrite repair question history =
      (plan_retrieval_queries rewrite repair question history).standalone_query
