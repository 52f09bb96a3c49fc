-- ===== src/Generation/Stream.antt =====
-- `_StreamingSourceNormalizer`: the start of a stream is held back until it is known whether it begins
-- with the mark of an answer without sources.
use mini_nblm_proto.Prelude.{
  ℕ, Bool, true, false, ◌||◌, not, Option, none, some, List, [], ◌∷◌, ◌++◌, nat_eq, if◌then◌else◌,
  is_some, drop, last, is_empty, any, ℕ-Eq, list-Eq, pair-Eq, option-Eq,
}
use mini_nblm_proto.Text.{Text, codes, lstrip, strip, starts_with}

-- Regular expressions and the Unicode tables: the end of a match of `NO_SOURCE_MARKER_PATTERN` at the
-- start of a text, and `str.upper`.
pub record Marks : Type 0 where
  pub marker_end : Text → Option ℕ
  pub upper : Text → Text

abbrev pub no_source_prefixes : List Text
no_source_prefixes = codes "업로드된 자료에서 확인되지 않습니다" ∷ codes "업로드된 자료에서 관련 내용을 찾지 못했습니다" ∷ []

abbrev pub no_source_marker_candidates : List Text
no_source_marker_candidates =
    codes "[[NO_SOURCE]]" ∷ codes "[[NO_SOURCE]" ∷ codes "[NO_SOURCE]]" ∷ codes "[NO_SOURCE]" ∷ []

abbrev pub no_source_answer : Text
no_source_answer = codes "업로드된 자료에서 확인되지 않습니다."

-- `t.lstrip(" :-\n")`
unfoldable pub lstrip_marks : Text → Text
lstrip_marks [] = []
lstrip_marks (c ∷ t) =
    if nat_eq c 32 || nat_eq c 58 || nat_eq c 45 || nat_eq c 10 then lstrip_marks t else c ∷ t

-- `"".join(parts)`
abbrev pub concat : List Text → Text
concat [] = []
concat (t ∷ ts) = t ++ concat ts

-- The loop over the prefixes: `none` where the text may still become one.
unfoldable pub prefix_decision : List Text → Text → Option Bool
unfolding starts_with
prefix_decision [] candidate = some true
prefix_decision (prefix ∷ prefixes) candidate =
    let later = prefix_decision prefixes candidate in
    if starts_with candidate prefix
    then none
    else if starts_with prefix candidate
    then some false
    else later

-- `self.pending`, `self.parts` and `self.has_grounded_source`
pub record Normalizer : Type 0 where
  pub pending : Text
  pub parts : List Text
  pub has_grounded_source : Option Bool

-- A text that is shown, unless it is empty.
abbrev pub shown : Text → List Text
shown visible = if is_empty visible then [] else visible ∷ []

-- The end of the stream: an empty answer without sources gets its text.
abbrev pub filling : Bool → Text → List Text
filling true visible = []
filling false [] = no_source_answer ∷ []
filling false (c ∷ t) = []

abbrev pub fill : List Text → List Text → Bool → Normalizer × List Text
fill parts emitted decision =
    let filled = filling decision (concat parts) in
    (
      record { pending = []; parts = parts ++ filled; has_grounded_source = some decision },
      emitted ++ filled,
    )

-- What is left of an answer with a mark, and whether one without may have sources.
abbrev pub decision_at : Option ℕ → (normalized answer : Text) → Text × Bool
decision_at (some n) normalized answer =
    let visible = lstrip_marks (drop n normalized) in
    (if is_empty visible then no_source_answer else visible, false)
decision_at none normalized answer =
    (answer, not (any (λ prefix. starts_with prefix normalized) no_source_prefixes))

module _ (x : Marks) where
  -- The visible answer, and whether it may have sources.
  unfoldable pub normalize_source_decision : Text → Text × Bool
  unfolding strip starts_with lstrip_marks
  normalize_source_decision answer = decision_at (x.marker_end (strip answer)) (strip answer) answer

  unfoldable pub detect_stream_source_decision : Text → Option Bool
  unfolding lstrip starts_with prefix_decision
  detect_stream_source_decision buffer =
      let candidate = lstrip buffer in
      if is_empty candidate
        || any (λ marker. starts_with (x.upper candidate) marker) no_source_marker_candidates
      then none
      else if is_some (x.marker_end candidate)
      then some false
      else prefix_decision no_source_prefixes candidate

  -- The text that becomes visible with the decision.
  abbrev pub visible_text : Bool → Text → Text
  visible_text true pending = pending
  visible_text false pending = (normalize_source_decision pending).0

  -- `push` after the delta is joined to the pending text; it returns the state and what is emitted.
  abbrev pub decide : List Text → Text → Option Bool → Normalizer × List Text
  decide parts pending none =
      (record { pending = pending; parts = parts; has_grounded_source = none }, [])
  decide parts pending (some decision) =
      let emitted = shown (visible_text decision pending) in
      (
        record { pending = []; parts = parts ++ emitted; has_grounded_source = some decision },
        emitted,
      )

  -- `push` where the decision, the pending text and the parts are these.
  abbrev pub push_at : Option Bool → Text → List Text → Text → Normalizer × List Text
  push_at (some decision) pending parts delta = (
    record { pending = pending; parts = parts ++ delta ∷ []; has_grounded_source = some decision },
    delta ∷ [],
  )
  push_at none pending parts delta =
      decide parts (pending ++ delta) (detect_stream_source_decision (pending ++ delta))

  unfoldable pub push : Normalizer → Text → Normalizer × List Text
  push n delta = push_at n.has_grounded_source n.pending n.parts delta

  abbrev pub finish_at : Option Bool → Text → List Text → Normalizer × List Text
  finish_at (some decision) pending parts = fill parts [] decision
  finish_at none pending parts =
      let (visible, decision) = normalize_source_decision pending in
      fill (parts ++ shown visible) (shown visible) decision

  unfoldable pub finish_stream : Normalizer → Normalizer × List Text
  finish_stream n = finish_at n.has_grounded_source n.pending n.parts

  -- The loop over the deltas of the model, with what is emitted, and the end.
  unfoldable pub stream_from : Normalizer → List Text → Normalizer × List Text
  unfolding push finish_stream
  stream_from n [] = finish_stream n
  stream_from n (delta ∷ deltas) =
      let (n', emitted) = push n delta in
      let (last, rest) = stream_from n' deltas in (last, emitted ++ rest)

  unfoldable pub stream : List Text → Normalizer × List Text
  unfolding stream_from
  stream deltas =
      stream_from (record { pending = []; parts = []; has_grounded_source = none }) deltas

  -- The loop over the deltas of a stream that breaks off: nothing is finished.
  unfoldable pub pushed_from : Normalizer → List Text → Normalizer × List Text
  unfolding push
  pushed_from n [] = (n, [])
  pushed_from n (delta ∷ deltas) =
      let (n', emitted) = push n delta in
      let (last, rest) = pushed_from n' deltas in (last, emitted ++ rest)
