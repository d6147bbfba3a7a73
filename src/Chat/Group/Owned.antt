-- ===== src/Chat/Group/Owned.antt =====
-- src/modules/chat/usecase: what keeps the owner that a conversation names and the owner among its
-- members the same.
use chat_be.Base.{
  ℕ, ◌≡◌, refl, sym, ap, ◌∙◌, inl, inr, true, some, arith, ◌==◌, eq_of_==, ==_self, Bool-cases,
  Option-cases, Dict, lookup, lookup-insert_self, adjust, lookup-adjust_self,
}
use chat_be.Chat.Model.{MessageText, Conversation, ConversationMember, Store, MessageType}
use chat_be.Chat.Settings.{is_owner_role, owns, is_owner_member}
use chat_be.Chat.Group.Ownership.{update_members, post_system_message, is_owner_of}
use chat_be.Chat.Group.Transfer.{IsOwnedBy, IsOwned, touched-IsOwnedBy}

pub update_members_at :
    (g : ℕ) (f : Dict ConversationMember → Dict ConversationMember) (s : Store)
    → (update_members g f s).members g ≡ f (s.members g)
update_members_at g f s = rw (==_self g) refl

-- A conversation that changes, and names the owner whom its members have.
pub updated-IsOwned :
    (g v : ℕ) (c : Conversation) (f : Conversation → Conversation) (s t : Store)
    → lookup g s.conversations ≡ some c
    → (f c).id ≡ g
    → (f c).owner_id ≡ some v
    → t.conversations ≡ adjust g f s.conversations
    → IsOwnedBy v (t.members g)
    → IsOwned g v t
updated-IsOwned g v c f s t found same names written owned = record {
  conversation = f c;
  found = rw written (lookup-adjust_self g f c s.conversations found);
  id = same;
  owner_id = names;
  owned = owned;
}

pub posted-IsOwned :
    (fresh now g v sender : ℕ) (text : MessageText) (s : Store)
    → IsOwned g v s
    → IsOwned g v (post_system_message fresh now g sender text s)
unfolding post_system_message
posted-IsOwned fresh now g v sender text s h =
    let c = h.conversation in
    let found = h.found in
    record {
      conversation = record c {
        last_message = some (record {
          message_id = fresh;
          sender_id = sender;
          type = MessageType.system;
          text_preview = text;
          created_at = now;
        });
        last_message_at = some now;
      };
      found = rw (found, h.id) (lookup-insert_self g _ s.conversations);
      id = h.id;
      owner_id = h.owner_id;
      owned = rw (==_self g) (touched-IsOwnedBy now v (s.members g) h.owned);
    }

-- A member whom the code takes for the owner is the owner.
pub owner_of :
    (g v u : ℕ) (c : Conversation) (s : Store)
    → IsOwned g v s
    → lookup g s.conversations ≡ some c
    → is_owner_of (lookup u (s.members g)) c ≡ true
    → u ≡ v
unfolding is_owner_member
owner_of g v u c s h found owns = elim (Option-cases (lookup u (s.members g))) [
  | inl absent ↦ absurd (ground arith)
  | inr (m, at_u) ↦
      let (user, only) = h.owned.rows u m at_u in
      let same : c ≡ h.conversation = (let e = h.found in ground arith) in
      let named : c.owner_id ≡ some v = ap (λ (x : Conversation). x.owner_id) same ∙ h.owner_id in
      elim (Bool-cases (is_owner_role m.role)) [
        | inl role ↦ only role
        | inr plain ↦
            let mine : m.user_id == v ≡ true = ground arith in sym user ∙ eq_of_== m.user_id v mine
      ]
]
