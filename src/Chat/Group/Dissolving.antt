-- ===== src/Chat/Group/Dissolving.antt =====
-- src/modules/chat/usecase/dissolve-group.ts. The tables of reactions and classifications are not
-- part of the store.
use chat_be.Base.{
  ℕ, Bool, false, not, ◌||◌, Option, none, some, List, [], ◌∷◌, map, ◌==◌, if◌then◌else◌, includes,
  Dict, lookup, delete, values,
}
use chat_be.Chat.Model.{
  Action, ok, throw, Conversation, ConversationMember, Store, ChatError, not_a_member,
  group_not_found, not_a_group, only_managers_dissolve,
}
use chat_be.Chat.Settings.{is_active_member, owns}
use chat_be.Chat.Poll.Vote.{first_error, guarded}
use chat_be.Chat.Group.Ownership.{is_group, admins_of}

abbrev pub may_dissolve : Option ConversationMember → ℕ → Conversation → Bool
may_dissolve none requester_id conversation = false
may_dissolve (some m) requester_id conversation =
    owns (some conversation) m.user_id || includes requester_id (admins_of conversation.admins)

abbrev pub dissolve_guard : Conversation → Option ConversationMember → ℕ → Option ChatError
dissolve_guard conversation requester requester_id = first_error (
    (not (is_group conversation.type), not_a_group)
    ∷ (not (is_active_member requester), not_a_member)
    ∷ (not (may_dissolve requester requester_id conversation), only_managers_dissolve)
    ∷ [])

-- `deleteByConversationId` of a table whose rows name their conversation
abbrev pub delete_of {ℓ} : {V : Type ℓ} → (V → ℕ) → ℕ → Dict V → Dict V
delete_of conversation_of g [] = []
delete_of conversation_of g ((k, v) ∷ d) =
    if conversation_of v == g
    then delete_of conversation_of g d
    else (k, v) ∷ delete_of conversation_of g d

unfoldable pub delete_group : ℕ → Store → Store
delete_group group_id s = record s {
  messages = delete_of (λ m. m.conversation_id) group_id s.messages;
  polls = delete_of (λ p. p.conversation_id) group_id s.polls;
  members = λ c. if c == group_id then [] else s.members c;
  conversations = delete group_id s.conversations;
}

-- What it returns is the users of all rows of the group.
unfoldable pub dissolve_group : ℕ → ℕ → Action (List ℕ)
dissolve_group group_id requester_id s = elim (lookup group_id s.conversations) [
  | none ↦ (throw group_not_found, s)
  | some c ↦
      guarded (dissolve_guard c (lookup requester_id (s.members group_id)) requester_id)
        (λ s. (ok (map (λ m. m.user_id) (values (s.members group_id))), delete_group group_id s)) s
]
