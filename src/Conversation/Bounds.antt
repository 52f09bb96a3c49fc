-- ===== src/Conversation/Bounds.antt =====
-- The conversation context stays within its two limits, and clips only at the oldest end.
use mini_nblm_proto.Prelude.{
  ℕ, ◌-◌, ◌≤◌, ◌≡◌, refl, inl, inr, true, false, List, [], ◌∷◌, ◌++◌, reverse, arith, leb,
  Bool-cases, length, last, is_empty, sum_by, All, length-append, length-drop, sum_by-append,
  All-append, ℕ-Eq, list-Eq, pair-Eq, option-Eq,
}
use mathlib.Core.List.{reverse-cons}
use mini_nblm_proto.Text.{Text}
use mini_nblm_proto.Conversation.{
  Message, is_spoken, clip, select_recent, limit_conversation_context, spoken,
  build_conversation_context,
}

abbrev pub chars : List Message → ℕ
chars = sum_by (λ m. length m.content)

-- A message that a model may be given: spoken, and not empty.
abbrev pub IsUsable : Message → Type 0
IsUsable m = (is_spoken m.role ≡ true) × (is_empty m.content ≡ false)

abbrev pub flat : List Message → Text
flat [] = []
flat (m ∷ ms) = m.content ++ flat ms

length-clip-le : (n : ℕ) (t : Text) → length (clip n t) ≤ n
length-clip-le n t = ground (arith, length-drop (length t - n) t)

chars-select_recent-le : (n : ℕ) (ms : List Message) → chars (select_recent n ms) ≤ n
unfolding select_recent
chars-select_recent-le n [] = omega arith
chars-select_recent-le n (m ∷ ms) = ground (
  arith,
  length-clip-le n m.content,
  chars-select_recent-le n ms,
  chars-select_recent-le (n - length (clip n m.content)) ms,
)

length-select_recent-le : (n : ℕ) (ms : List Message) → length (select_recent n ms) ≤ length ms
unfolding select_recent
length-select_recent-le n [] = omega arith
length-select_recent-le n (m ∷ ms) = ground (
  arith,
  length-select_recent-le n ms,
  length-select_recent-le (n - length (clip n m.content)) ms,
)

select_recent-IsUsable : (n : ℕ) (ms : List Message) → All IsUsable (select_recent n ms)
unfolding select_recent
select_recent-IsUsable n [] = tt
select_recent-IsUsable n (m ∷ ms) =
    ground (
      arith,
      select_recent-IsUsable n ms,
      select_recent-IsUsable (n - length (clip n m.content)) ms,
    )

All-reverse : (P : Message → Type 0) (ms : List Message) → All P ms → All P (reverse ms)
All-reverse P [] h = tt
All-reverse P (m ∷ ms) h =
    rw (reverse-cons m ms) (All-append P (reverse ms) (m ∷ []) (All-reverse P ms h.1) (h.0, tt))

chars-reverse : (ms : List Message) → chars (reverse ms) ≡ chars ms
chars-reverse [] = refl
chars-reverse (m ∷ ms) =
    rw (reverse-cons m ms)
      (omega (arith, sum_by-append (λ x. length x.content) (reverse ms) (m ∷ []), chars-reverse ms))

length-reverse : (ms : List Message) → length (reverse ms) ≡ length ms
length-reverse [] = refl
length-reverse (m ∷ ms) =
    rw (reverse-cons m ms) (omega (arith, length-append (reverse ms) (m ∷ []), length-reverse ms))

length-spoken-le : (ms : List Message) → length (spoken ms) ≤ length ms
unfolding spoken
length-spoken-le [] = omega arith
length-spoken-le (m ∷ ms) = ground (arith, length-spoken-le ms)

-- Whatever the history and the limit, the messages given to the model are spoken by the user or the
-- assistant and not empty, their characters are at most the limit, and they are no more than those of
-- the history.
pub limit_conversation_context_bounds :
    (history : List Message) (n : ℕ)
    → All IsUsable (limit_conversation_context history n)
      × (chars (limit_conversation_context history n) ≤ n)
      × (length (limit_conversation_context history n) ≤ length history)
unfolding limit_conversation_context
limit_conversation_context_bounds history n = elim (Bool-cases (leb n 0)) [
  | inl e ↦ rw e (tt, omega arith, omega arith)
  | inr e ↦
      let recent = select_recent n (reverse history) in
      rw e (
        All-reverse IsUsable recent (select_recent-IsUsable n (reverse history)),
        omega (arith, chars-reverse recent, chars-select_recent-le n (reverse history)),
        omega (
          arith,
          length-reverse recent,
          length-select_recent-le n (reverse history),
          length-reverse history,
        ),
      )
]

-- A conversation context has at most 8 messages of at most 8,000 characters together, all usable.
pub build_conversation_context_bounds :
    (messages : List Message)
    → All IsUsable (build_conversation_context messages)
      × (chars (build_conversation_context messages) ≤ 8000)
      × (length (build_conversation_context messages) ≤ 8)
unfolding build_conversation_context
build_conversation_context_bounds messages =
    let recent = last 8 messages in
    let bounds = limit_conversation_context_bounds (spoken recent) 8000 in
    (
      bounds.0,
      bounds.1,
      omega (arith, bounds.2, length-spoken-le recent, length-drop (length messages - 8) messages),
    )
