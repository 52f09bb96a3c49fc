-- ===== src/Conversation.antt =====
-- app/services/conversation_service.py: the recent messages that fit the model's context.
pub mod Bounds
pub mod Suffix
use mini_nblm_proto.Prelude.{
  ℕ, ◌-◌, Bool, true, false, ◌&&◌, ◌||◌, not, List, [], ◌∷◌, reverse, ltb, leb, if◌then◌else◌,
  length, last, is_empty,
}
use mini_nblm_proto.Text.{Text}

-- `message.role` and `message["role"]`; every other string is `other`.
pub data Role : Type 0 where
  user assistant other : Role

pub record Message : Type 0 where
  pub role : Role
  pub content : Text

abbrev pub max_context_messages : ℕ
max_context_messages = 8

abbrev pub max_context_chars : ℕ
max_context_chars = 8000

-- `role in {"user", "assistant"}`
abbrev pub is_spoken : Role → Bool
is_spoken user = true
is_spoken assistant = true
is_spoken other = false

-- `content[-remaining:]` where the content is longer; `remaining` is positive in the loop.
abbrev pub clip : ℕ → Text → Text
clip remaining content = if ltb remaining (length content) then last remaining content else content

-- The loop over the messages from the newest back, with the characters that remain. What it
-- appends is in the order of the loop, newest first.
unfoldable pub select_recent : ℕ → List Message → List Message
select_recent remaining [] = []
select_recent remaining (message ∷ older) =
    let content = clip remaining message.content in
    let skipped = select_recent remaining older in
    let kept : Message = record { role = message.role; content = content } in
    let left = remaining - length content in
    let rest = select_recent left older in
    if not (is_spoken message.role) || is_empty message.content
    then skipped
    else if is_empty content
    then []
    else if leb left 0
    then kept ∷ []
    else kept ∷ rest

unfoldable pub limit_conversation_context : List Message → ℕ → List Message
unfolding select_recent
limit_conversation_context history max_chars =
    if leb max_chars 0 then [] else reverse (select_recent max_chars (reverse history))

-- The list comprehension's filter.
unfoldable pub spoken : List Message → List Message
spoken [] = []
spoken (m ∷ ms) =
    let rest = spoken ms in if is_spoken m.role && not (is_empty m.content) then m ∷ rest else rest

unfoldable pub build_conversation_context : List Message → List Message
unfolding spoken limit_conversation_context
build_conversation_context messages =
    limit_conversation_context (spoken (last max_context_messages messages)) max_context_chars
