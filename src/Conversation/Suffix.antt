-- ===== src/Conversation/Suffix.antt =====
-- The loop of `limit_conversation_context` against its specification: cutting the whole text of the
-- conversation to its last characters.
use mini_nblm_proto.Prelude.{
  ℕ, zero, suc, ◌-◌, ◌≤◌, ◌<◌, ◌≡◌, refl, sym, ◌∙◌, inl, inr, true, false, ◌&&◌, ◌||◌, not, List,
  [], ◌∷◌, ◌++◌, reverse, append_assoc, append-nil, arith, ltb, leb, leb→le, Bool-cases, length,
  drop, last, is_empty, length-append, length-drop, ℕ-Eq, list-Eq, pair-Eq, option-Eq,
}
use mathlib.Core.List.{reverse-cons, reverse-reverse}
use mini_nblm_proto.Text.{Text}
use mini_nblm_proto.Conversation.{
  Message, is_spoken, clip, select_recent, limit_conversation_context, spoken,
}
use mini_nblm_proto.Conversation.Bounds.{flat}

drop-append_le : (k : ℕ) (s t : Text) → k ≤ length s → drop k (s ++ t) ≡ drop k s ++ t
drop-append_le zero s t h = refl
drop-append_le (suc k) [] t h = absurd (omega arith)
drop-append_le (suc k) (c ∷ s) t h = drop-append_le k s t (omega arith)

drop-append_ge : (k : ℕ) (s t : Text) → length s ≤ k → drop k (s ++ t) ≡ drop (k - length s) t
drop-append_ge k [] t h = let e : k - 0 ≡ k = omega arith in rw e
drop-append_ge zero (c ∷ s) t h = absurd (omega arith)
drop-append_ge (suc k) (c ∷ s) t h =
    let e : suc k - suc (length s) ≡ k - length s = omega arith in
    rw e (drop-append_ge k s t (omega arith))

drop-all : (k : ℕ) (t : Text) → length t ≤ k → drop k t ≡ []
drop-all zero [] h = refl
drop-all (suc k) [] h = refl
drop-all zero (c ∷ t) h = absurd (omega arith)
drop-all (suc k) (c ∷ t) h = drop-all k t (omega arith)

last-append_short :
    (n : ℕ) (s t : Text) → length t ≤ n → last n (s ++ t) ≡ last (n - length t) s ++ t
last-append_short n s t h =
    let e : length (s ++ t) - n ≡ length s - (n - length t) = omega (arith, length-append s t) in
    rw e (drop-append_le (length s - (n - length t)) s t (omega arith))

last-append_long : (n : ℕ) (s t : Text) → n ≤ length t → last n (s ++ t) ≡ last n t
last-append_long n s t h =
    let e : length (s ++ t) - n - length s ≡ length t - n = omega (arith, length-append s t) in
    drop-append_ge (length (s ++ t) - n) s t (omega (arith, length-append s t)) ∙ rw e

flat-append : (ms ns : List Message) → flat (ms ++ ns) ≡ flat ms ++ flat ns
flat-append [] ns = refl
flat-append (m ∷ ms) ns = simp (flat-append ms ns, append_assoc)

flat-snoc :
    (ms : List Message) (m : Message) → flat (reverse (m ∷ ms)) ≡ flat (reverse ms) ++ m.content
flat-snoc ms m = simp (reverse-cons m ms, flat-append (reverse ms) (m ∷ []), append-nil)

spoken-append : (ms ns : List Message) → spoken (ms ++ ns) ≡ spoken ms ++ spoken ns
unfolding spoken
spoken-append [] ns = refl
spoken-append (m ∷ ms) ns = ground (arith, spoken-append ms ns)

spoken-reverse : (ms : List Message) → spoken (reverse ms) ≡ reverse (spoken ms)
spoken-reverse [] = unfold spoken in refl
spoken-reverse (m ∷ ms) = rw (reverse-cons m ms) (
    spoken-append (reverse ms) (m ∷ [])
    ∙ rw (spoken-reverse ms) (
        unfold spoken in
        elim (Bool-cases (is_spoken m.role && not (is_empty m.content))) [
          | inl e ↦ rw (e, reverse-cons m (spoken ms))
          | inr e ↦ rw (e, append-nil)
        ]))

is_empty-length : (t : Text) → 0 < length t → is_empty t ≡ false
is_empty-length [] h = absurd (omega arith)
is_empty-length (c ∷ t) h = refl

last-all : (n : ℕ) (t : Text) → length t ≤ n → last n t ≡ t
last-all n t h = let e : length t - n ≡ 0 = omega arith in rw e

clip-eq-last : (n : ℕ) (t : Text) → clip n t ≡ last n t
clip-eq-last n t = elim (Bool-cases (ltb n (length t))) [
  | inl e ↦ rw e
  | inr e ↦ rw e (sym (last-all n t (ground arith)))
]

-- A usable message that fills what remains is clipped to its end, and ends the loop.
select_recent-last :
    (n : ℕ) (m : Message) (ms : List Message)
    → 0 < n
    → n ≤ length m.content
    → (not (is_spoken m.role) || is_empty m.content) ≡ false
    → select_recent n (m ∷ ms) ≡ record { role = m.role; content = last n m.content } ∷ []
unfolding select_recent
select_recent-last n m ms p h u =
    let size : length (last n m.content) ≡ n =
      omega (arith, length-drop (length m.content - n) m.content) in
    let full = is_empty-length (last n m.content) (omega (arith, size)) in
    let done : leb (n - length (last n m.content)) 0 ≡ true = ground (arith, size) in
    rw (clip-eq-last n m.content, u, full, done)

-- A usable message that leaves room is kept whole.
select_recent-more :
    (n : ℕ) (m : Message) (ms : List Message)
    → length m.content < n
    → (not (is_spoken m.role) || is_empty m.content) ≡ false
    → select_recent n (m ∷ ms) ≡ m ∷ select_recent (n - length m.content) ms
unfolding select_recent
select_recent-more n m ms h u =
    let whole : clip n m.content ≡ m.content =
      clip-eq-last n m.content ∙ last-all n m.content (omega arith) in
    let full : is_empty m.content ≡ false = ground arith in
    let room : leb (n - length m.content) 0 ≡ false = ground arith in rw (whole, u, full, room)

select_recent-flat :
    (n : ℕ) (ms : List Message)
    → 0 < n
    → flat (reverse (select_recent n ms)) ≡ last n (flat (reverse (spoken ms)))
select_recent-flat n [] p = unfold select_recent spoken in let e : 0 - n ≡ 0 = omega arith in rw e
select_recent-flat n (m ∷ ms) p = elim (Bool-cases (not (is_spoken m.role) || is_empty m.content)) [
  | inl u ↦
      let skip : select_recent n (m ∷ ms) ≡ select_recent n ms = unfold select_recent in rw u in
      let same : spoken (m ∷ ms) ≡ spoken ms = unfold spoken in ground arith in
      rw (skip, same) (select_recent-flat n ms p)
  | inr u ↦
      let kept : spoken (m ∷ ms) ≡ m ∷ spoken ms = unfold spoken in ground arith in
      rw (kept, flat-snoc (spoken ms) m)
        (elim (Bool-cases (leb n (length m.content))) [
          | inl fill ↦
              let le = leb→le n (length m.content) fill in
              rw
                (
                  select_recent-last n m ms p le u,
                  last-append_long n (flat (reverse (spoken ms))) m.content le,
                )
                (append-nil (last n m.content))
          | inr room ↦
              let lt : length m.content < n = ground arith in
              rw (
                select_recent-more n m ms lt u,
                flat-snoc (select_recent (n - length m.content) ms) m,
                select_recent-flat (n - length m.content) ms (omega arith),
                last-append_short n (flat (reverse (spoken ms))) m.content (omega arith),
              )
        ])
]

-- The context's text is the end of the conversation: the last `n` characters of all that the user and
-- the assistant said, in order.
pub limit_conversation_context-suffix :
    (history : List Message) (n : ℕ)
    → flat (limit_conversation_context history n) ≡ last n (flat (spoken history))
unfolding limit_conversation_context
limit_conversation_context-suffix history n = elim (Bool-cases (leb n 0)) [
  | inl e ↦ rw e (
      sym (
        drop-all (length (flat (spoken history)) - n) (flat (spoken history))
          (omega (arith, leb→le n 0 e))))
  | inr e ↦ rw e (
      select_recent-flat n (reverse history) (ground arith)
      ∙ rw (spoken-reverse history, reverse-reverse (spoken history)))
]
