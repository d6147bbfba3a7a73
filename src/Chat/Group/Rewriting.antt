-- ===== src/Chat/Group/Rewriting.antt =====
-- src/modules/chat/usecase: the row of another member than the owner is written.
use chat_be.Base.{
  ℕ, ◌+◌, ◌≡◌, sym, ◌∙◌, ◌≢◌, inl, inr, true, false, some, arith, Dict, lookup, insert,
  lookup-insert_cases, lookup-insert_ne, adjust, ap,
}
use chat_be.Chat.Settings.{is_active, is_active_member, is_owner_role, owns}
use chat_be.Chat.Model.{Conversation, ConversationMember, Store}
use chat_be.Chat.Group.Transfer.{IsOwnedBy}
use chat_be.Chat.Group.Counted.{
  bit, count_active-insert, is_settled, IsKept, rebuilt-IsKept, count_active,
}

pub inserted-IsOwnedBy :
    (v u : ℕ) (n : ConversationMember) (ms : Dict ConversationMember)
    → IsOwnedBy v ms
    → u ≢ v
    → n.user_id ≡ u
    → is_owner_role n.role ≡ false
    → IsOwnedBy v (insert u n ms)
inserted-IsOwnedBy v u n ms h ne user plain =
    let (m, at_v, active, owns) = h.present in
    record {
      present = (m, lookup-insert_ne v u n ms (λ e. ne (sym e)) ∙ at_v, active, owns);
      rows = λ w o e. elim (lookup-insert_cases w u n o ms e) [
        | inr (other, old) ↦ h.rows w o old
        | inl (wu, same) ↦ rw (sym same) (user ∙ sym wu, λ r. absurd (ground arith))
      ];
    }

pub inserted-is_settled :
    (u : ℕ) (n : ConversationMember) (ms : Dict ConversationMember)
    → ((w : ℕ) (m : ConversationMember) → lookup w ms ≡ some m → is_settled m ≡ true)
    → is_settled n ≡ true
    → (w : ℕ) (m : ConversationMember) → lookup w (insert u n ms) ≡ some m
    → is_settled m ≡ true
inserted-is_settled u n ms h fit w m e = elim (lookup-insert_cases w u n m ms e) [
  | inr (other, old) ↦ h w m old
  | inl (wu, same) ↦ rw (sym same) fit
]

-- Who is no active member does not own the group.
pub absent_ne :
    (v u : ℕ) (ms : Dict ConversationMember)
    → IsOwnedBy v ms
    → is_active_member (lookup u ms) ≡ false
    → u ≢ v
absent_ne v u ms h gone uv =
    let (m, at_v, active, owns) = h.present in let here = rw uv at gone in absurd (ground arith)

-- What a handler writes: one row of another member than the owner, and the conversation with the
-- count that follows.
pub row_written-IsKept :
    (g v u : ℕ) (n : ConversationMember) (f : Conversation → Conversation) (s t : Store)
    (h : IsKept g v s)
    → t.conversations ≡ adjust g f s.conversations
    → t.members g ≡ insert u n (s.members g)
    → (f h.owned.conversation).id ≡ h.owned.conversation.id
    → (f h.owned.conversation).owner_id ≡ h.owned.conversation.owner_id
    → u ≢ v
    → n.user_id ≡ u
    → is_owner_role n.role ≡ false
    → is_settled n ≡ true
    → (f h.owned.conversation).members_count + bit (is_active_member (lookup u (s.members g)))
      ≡ h.owned.conversation.members_count + bit (is_active n)
    → IsKept g v t
row_written-IsKept g v u n f s t h written rows id names ne user plain fit count =
    let counted = h.counted in
    let after = count_active-insert u n (s.members g) in
    rebuilt-IsKept g v h.owned.conversation f s t h.owned.found written (id ∙ h.owned.id)
      (names ∙ h.owned.owner_id)
      (rw rows (inserted-IsOwnedBy v u n (s.members g) h.owned.owned ne user plain))
      (rw rows (omega arith)) (rw rows (inserted-is_settled u n (s.members g) h.settled fit))

-- One row of another member than the owner, and the conversation as it was.
pub row_written_alone-IsKept :
    (g v u : ℕ) (n : ConversationMember) (s t : Store)
    → IsKept g v s
    → t.conversations ≡ s.conversations
    → t.members g ≡ insert u n (s.members g)
    → u ≢ v
    → n.user_id ≡ u
    → is_owner_role n.role ≡ false
    → is_settled n ≡ true
    → is_active_member (lookup u (s.members g)) ≡ is_active n
    → IsKept g v t
row_written_alone-IsKept g v u n s t h written rows ne user plain fit active =
    let after = count_active-insert u n (s.members g) in
    let bits : bit (is_active_member (lookup u (s.members g))) ≡ bit (is_active n) =
      ap bit active in
    let same : count_active (insert u n (s.members g)) ≡ count_active (s.members g) = omega arith in
    record {
      owned = record {
        conversation = h.owned.conversation;
        found = rw written h.owned.found;
        id = h.owned.id;
        owner_id = h.owned.owner_id;
        owned = rw rows (inserted-IsOwnedBy v u n (s.members g) h.owned.owned ne user plain);
      };
      counted = rw rows (h.counted ∙ sym same);
      settled = rw rows (inserted-is_settled u n (s.members g) h.settled fit);
    }
