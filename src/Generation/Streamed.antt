-- ===== src/Generation/Streamed.antt =====
-- What a reader of the stream sees.
use mini_nblm_proto.Prelude.{
  ℕ, ◌≡◌, refl, sym, ap, ◌∙◌, ◌⊎◌, inl, inr, Bool, true, false, Option, none, some, List, [], ◌∷◌,
  ◌++◌, append_assoc, append-nil, is_empty, ℕ-Eq, list-Eq, pair-Eq, option-Eq,
}
use mathlib.Core.Path.{subst}
use mini_nblm_proto.Text.{Text, strip}
use mini_nblm_proto.Generation.Stream.{
  Marks, Normalizer, concat, decide, detect_stream_source_decision, fill, finish_stream, filling,
  decision_at, normalize_source_decision, finish_at, push, push_at, shown, stream, stream_from,
  visible_text,
}

concat-append : (ts us : List Text) → concat (ts ++ us) ≡ concat ts ++ concat us
concat-append [] us = refl
concat-append (t ∷ ts) us =
    ap (λ v. t ++ v) (concat-append ts us) ∙ sym (append_assoc t (concat ts) (concat us))

concat-shown : (t : Text) → concat (shown t) ≡ t
concat-shown [] = refl
concat-shown (c ∷ t) = append-nil (c ∷ t)

-- What a state keeps of the text read so far: all of it while nothing is decided, and all of it as
-- visible text when the answer may have sources.
abbrev Keeps : Option Bool → Text → List Text → Text → Type 0
Keeps none pending parts seen = (parts ≡ []) × (pending ≡ seen)
Keeps (some true) pending parts seen = concat parts ≡ seen
Keeps (some false) pending parts seen = Unit

-- A step, which emits what it adds to the parts.
record IsStep (parts : List Text) (seen : Text) (result : Normalizer × List Text) : Type 0 where
  keeps : Keeps result.0.has_grounded_source result.0.pending result.0.parts seen
  emitted : concat result.0.parts ≡ concat parts ++ concat result.1

-- The end of a stream that had these parts at the start.
record IsEnd (parts : List Text) (seen : Text) (result : Normalizer × List Text) : Type 0 where
  decision : Bool
  decided : result.0.has_grounded_source ≡ some decision
  emitted : concat result.0.parts ≡ concat parts ++ concat result.1
  faithful : (decision ≡ false) ⊎ (concat result.0.parts ≡ seen)
  filled : (decision ≡ true) ⊎ (is_empty (concat result.0.parts) ≡ false)

concat-snoc : (ts : List Text) (t : Text) → concat (ts ++ t ∷ []) ≡ concat ts ++ t
concat-snoc ts t = concat-append ts (t ∷ []) ∙ ap (λ u. concat ts ++ u) (append-nil t)

filling_faithful :
    (parts : List Text) (decision : Bool) {seen : Text}
    → (decision ≡ false) ⊎ (concat parts ≡ seen)
    → (decision ≡ false) ⊎ (concat (parts ++ filling decision (concat parts)) ≡ seen)
filling_faithful parts false f = inl refl
filling_faithful parts true (inl e) = inl e
filling_faithful parts true (inr e) = inr (ap concat (append-nil parts) ∙ e)

filled_text : (t : Text) → is_empty (t ++ concat (filling false t)) ≡ false
filled_text [] = refl
filled_text (c ∷ t) = refl

filling_filled :
    (parts : List Text) (decision : Bool)
    → (decision ≡ true) ⊎ (is_empty (concat (parts ++ filling decision (concat parts))) ≡ false)
filling_filled parts true = inl refl
filling_filled parts false =
    inr (
      ap is_empty (concat-append parts (filling false (concat parts))) ∙ filled_text (concat parts))

fill-IsEnd :
    (before parts emitted : List Text) (seen : Text) (decision : Bool)
    → concat parts ≡ concat before ++ concat emitted
    → (decision ≡ false) ⊎ (concat parts ≡ seen)
    → IsEnd before seen (fill parts emitted decision)
fill-IsEnd before parts emitted seen decision e f = record {
  decision = decision;
  decided = refl;
  emitted =
      concat-append parts (filling decision (concat parts))
      ∙ ap (λ t. t ++ concat (filling decision (concat parts))) e
      ∙ append_assoc (concat before) (concat emitted) (concat (filling decision (concat parts)))
      ∙ ap (λ t. concat before ++ t)
          (sym (concat-append emitted (filling decision (concat parts))));
  faithful = filling_faithful parts decision f;
  filled = filling_filled parts decision;
}

module _ (x : Marks) where
  decide-IsStep :
      (parts : List Text) (seen : Text) (decision : Option Bool)
      → parts ≡ []
      → IsStep parts seen (decide x parts seen decision)
  decide-IsStep parts seen none e = record {
    keeps = (e, refl);
    emitted = sym (append-nil (concat parts));
  }
  decide-IsStep parts seen (some true) e = record {
    keeps = ap (λ ts. concat (ts ++ shown seen)) e ∙ concat-shown seen;
    emitted = concat-append parts (shown seen);
  }
  decide-IsStep parts seen (some false) e = record {
    keeps = tt;
    emitted = concat-append parts (shown (visible_text x false seen));
  }

  push-IsStep :
      (decision : Option Bool) (pending : Text) (parts : List Text) (seen delta : Text)
      → Keeps decision pending parts seen
      → IsStep parts (seen ++ delta) (push_at x decision pending parts delta)
  push-IsStep none pending parts seen delta k =
      subst (λ t. IsStep parts (t ++ delta) (push_at x none pending parts delta)) k.1
        (decide-IsStep parts (pending ++ delta) (detect_stream_source_decision x (pending ++ delta))
          k.0)
  push-IsStep (some true) pending parts seen delta k = record {
    keeps = concat-snoc parts delta ∙ ap (λ t. t ++ delta) k;
    emitted = concat-append parts (delta ∷ []);
  }
  push-IsStep (some false) pending parts seen delta k = record {
    keeps = tt;
    emitted = concat-append parts (delta ∷ []);
  }

  -- Without a mark of no sources the text stays as it is.
  normalize_source_decision-same :
      (answer : Text)
      → ((normalize_source_decision x answer).1 ≡ false)
        ⊎ ((normalize_source_decision x answer).0 ≡ answer)
  unfolding normalize_source_decision
  normalize_source_decision-same answer = go (x.marker_end (strip answer))
    where
      go :
          (end_of : Option ℕ)
          → ((decision_at end_of (strip answer) answer).1 ≡ false)
            ⊎ ((decision_at end_of (strip answer) answer).0 ≡ answer)
      go (some n) = inl refl
      go none = inr refl

  finish-IsEnd :
      (decision : Option Bool) (pending : Text) (parts : List Text) (seen : Text)
      → Keeps decision pending parts seen
      → IsEnd parts seen (finish_at x decision pending parts)
  finish-IsEnd (some true) pending parts seen k =
      fill-IsEnd parts parts [] seen true (sym (append-nil (concat parts))) (inr k)
  finish-IsEnd (some false) pending parts seen k =
      fill-IsEnd parts parts [] seen false (sym (append-nil (concat parts))) (inl refl)
  finish-IsEnd none pending parts seen k =
      let visible = (normalize_source_decision x pending).0 in
      fill-IsEnd parts (parts ++ shown visible) (shown visible) seen
        (normalize_source_decision x pending).1 (concat-append parts (shown visible))
        (elim (normalize_source_decision-same pending) [
          | inl e ↦ inl e
          | inr e ↦
              inr (ap (λ ts. concat (ts ++ shown visible)) k.0 ∙ concat-shown visible ∙ e ∙ k.1)
        ])

  stream_from-IsEnd :
      (n : Normalizer) (seen : Text) (deltas : List Text)
      → Keeps n.has_grounded_source n.pending n.parts seen
      → IsEnd n.parts (seen ++ concat deltas) (stream_from x n deltas)
  unfolding stream_from
  stream_from-IsEnd n seen [] k =
      subst (λ t. IsEnd n.parts t (finish_stream x n)) (sym (append-nil seen))
        (finish-IsEnd n.has_grounded_source n.pending n.parts seen k)
  stream_from-IsEnd n seen (delta ∷ deltas) k =
      let step = push-IsStep n.has_grounded_source n.pending n.parts seen delta k in
      let after = push x n delta in
      let later = stream_from-IsEnd after.0 (seen ++ delta) deltas step.keeps in
      let rest = stream_from x after.0 deltas in
      record {
        decision = later.decision;
        decided = later.decided;
        emitted =
            later.emitted
            ∙ ap (λ t. t ++ concat rest.1) step.emitted
            ∙ append_assoc (concat n.parts) (concat after.1) (concat rest.1)
            ∙ ap (λ t. concat n.parts ++ t) (sym (concat-append after.1 rest.1));
        faithful = elim later.faithful [
          | inl e ↦ inl e
          | inr e ↦ inr (e ∙ append_assoc seen delta (concat deltas))
        ];
        filled = later.filled;
      }

  -- Whatever the model sends, in whatever pieces: at the end the stream has decided whether the answer
  -- may have sources; what was sent on to the reader, piece after piece, is the normalizer's answer; it is
  -- exactly what the model sent where the answer may have sources, and it is not empty otherwise.
  pub stream-IsEnd :
      (deltas : List Text)
      → (decision : Bool) × ((stream x deltas).0.has_grounded_source ≡ some decision)
        × (concat (stream x deltas).0.parts ≡ concat (stream x deltas).1)
        × ((decision ≡ false) ⊎ (concat (stream x deltas).1 ≡ concat deltas))
        × ((decision ≡ true) ⊎ (is_empty (concat (stream x deltas).1) ≡ false))
  unfolding stream
  stream-IsEnd deltas =
      let start : Normalizer = record { pending = []; parts = []; has_grounded_source = none } in
      let r = stream_from-IsEnd start [] deltas (refl, refl) in
      (
        r.decision,
        r.decided,
        r.emitted,
        elim r.faithful [ inl e ↦ inl e | inr e ↦ inr (sym r.emitted ∙ e) ],
        elim r.filled [ inl e ↦ inl e | inr e ↦ inr (ap is_empty (sym r.emitted) ∙ e) ],
      )
