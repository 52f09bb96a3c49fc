-- ===== src/Tests/Context.antt =====
-- Conversation contexts on concrete input.
use mini_nblm_proto.Prelude.{
  ◌≤◌, ◌≡◌, List, [], ◌∷◌, length, last, All, ℕ-Eq, list-Eq, pair-Eq, option-Eq,
}
use mini_nblm_proto.Text.{codes}
use mini_nblm_proto.Conversation.{
  user, assistant, Message, limit_conversation_context, build_conversation_context, spoken,
}
use mini_nblm_proto.Conversation.Bounds.{
  chars, IsUsable, flat, limit_conversation_context_bounds, build_conversation_context_bounds,
}
use mini_nblm_proto.Conversation.Suffix.{limit_conversation_context-suffix}

abbrev talk : List Message
talk =
    record { role = user; content = codes "what is a chunk?" }
    ∷ record { role = assistant; content = codes "a piece of a page" }
    ∷ []

limit_conversation_context_bounds_example :
    All IsUsable (limit_conversation_context talk 20)
    × (chars (limit_conversation_context talk 20) ≤ 20)
    × (length (limit_conversation_context talk 20) ≤ length talk)
limit_conversation_context_bounds_example = limit_conversation_context_bounds talk 20

build_conversation_context_bounds_example :
    All IsUsable (build_conversation_context talk)
    × (chars (build_conversation_context talk) ≤ 8000)
    × (length (build_conversation_context talk) ≤ 8)
build_conversation_context_bounds_example = build_conversation_context_bounds talk

limit_conversation_context-suffix_example :
    flat (limit_conversation_context talk 20) ≡ last 20 (flat (spoken talk))
limit_conversation_context-suffix_example = limit_conversation_context-suffix talk 20
