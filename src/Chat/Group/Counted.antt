-- ===== src/Chat/Group/Counted.antt =====
-- src/modules/chat/usecase: `membersCount` of a group beside the rows of its members.
use chat_be.Base.{
  ℕ, ◌+◌, ◌≡◌, refl, sym, ap, ◌∙◌, inl, inr, Bool, true, false, not, ◌||◌, some, [], ◌∷◌, arith,
  ◌==◌, ==_self, Bool-cases, Option-cases, is_some, Dict, lookup, insert, map_values, adjust,
  lookup-map_values_cases, lookup-adjust_self,
}
use chat_be.Chat.Settings.{is_active_status, is_active, is_active_member}
use chat_be.Chat.Model.{MessageText, Conversation, ConversationMember, Store, MessageType}
use chat_be.Chat.Group.Ownership.{touch, post_system_message}
use chat_be.Chat.Group.Transfer.{IsOwnedBy, IsOwned, touched-IsOwnedBy}

abbrev pub bit : Bool → ℕ
bit true = 1
bit false = 0

-- How many rows are those of active members.
abbrev pub count_active : Dict ConversationMember → ℕ
count_active [] = 0
count_active ((u, m) ∷ d) = bit (is_active m) + count_active d

-- A written row counts in the place of the old one.
pub count_active-insert :
    (u : ℕ) (n : ConversationMember) (d : Dict ConversationMember)
    → count_active (insert u n d) + bit (is_active_member (lookup u d))
      ≡ count_active d + bit (is_active n)
count_active-insert u n [] = omega arith
count_active-insert u n ((w, m) ∷ d) = elim (Bool-cases (u == w)) [
  | inl same ↦ rw same (omega arith)
  | inr other ↦ rw other (omega (arith, count_active-insert u n d))
]

pub count_active-adjust :
    (u : ℕ) (f : ConversationMember → ConversationMember) (m : ConversationMember)
    (d : Dict ConversationMember)
    → lookup u d ≡ some m
    → count_active (adjust u f d) + bit (is_active m) ≡ count_active d + bit (is_active (f m))
count_active-adjust u f m d e =
    let counted = count_active-insert u (f m) d in rw e (rw e at counted)

-- An update that keeps who is active keeps the count.
pub count_active-adjust_same :
    (u : ℕ) (f : ConversationMember → ConversationMember) (d : Dict ConversationMember)
    → ((m : ConversationMember) → is_active (f m) ≡ is_active m)
    → count_active (adjust u f d) ≡ count_active d
count_active-adjust_same u f d same = elim (Option-cases (lookup u d)) [
  | inl absent ↦ rw absent refl
  | inr (m, found) ↦
      let counted = count_active-adjust u f m d found in
      let e = same m in
      let bits : bit (is_active (f m)) ≡ bit (is_active m) = ap bit e in omega arith
]

pub count_active-map_values :
    (f : ConversationMember → ConversationMember) (d : Dict ConversationMember)
    → ((m : ConversationMember) → is_active (f m) ≡ is_active m)
    → count_active (map_values f d) ≡ count_active d
count_active-map_values f [] same = refl
count_active-map_values f ((u, m) ∷ d) same = rw (same m, count_active-map_values f d same) refl

pub touch-is_active : (now : ℕ) (m : ConversationMember) → is_active (touch now m) ≡ is_active m
touch-is_active now m = ground arith

-- A row that has been left is one of a member who was let in.
abbrev pub is_settled : ConversationMember → Bool
is_settled m = not (is_some m.left_at) || is_active_status m.status

-- The group `g` is owned by `v`, its count is that of its active members, and its rows are settled.
pub record IsKept (g v : ℕ) (s : Store) : Type 0 where
  pub owned : IsOwned g v s
  pub counted : owned.conversation.members_count ≡ count_active (s.members g)
  pub settled :
      (w : ℕ) (m : ConversationMember) → lookup w (s.members g) ≡ some m → is_settled m ≡ true

-- What the other tables hold does not matter.
pub same-IsKept :
    (g v : ℕ) (s t : Store)
    → t.conversations ≡ s.conversations
    → t.members ≡ s.members
    → IsKept g v s
    → IsKept g v t
same-IsKept g v s t conversations members h = record {
  owned = record {
    conversation = h.owned.conversation;
    found = rw conversations h.owned.found;
    id = h.owned.id;
    owner_id = h.owned.owner_id;
    owned = rw members h.owned.owned;
  };
  counted = rw members h.counted;
  settled = rw members h.settled;
}

-- A change of the group: what is to be shown of the new conversation and the new rows.
pub rebuilt-IsKept :
    (g v : ℕ) (c : Conversation) (f : Conversation → Conversation) (s t : Store)
    → lookup g s.conversations ≡ some c
    → t.conversations ≡ adjust g f s.conversations
    → (f c).id ≡ g
    → (f c).owner_id ≡ some v
    → IsOwnedBy v (t.members g)
    → (f c).members_count ≡ count_active (t.members g)
    → ((w : ℕ) (m : ConversationMember) → lookup w (t.members g) ≡ some m → is_settled m ≡ true)
    → IsKept g v t
rebuilt-IsKept g v c f s t found written same names owned counted settled = record {
  owned = record {
    conversation = f c;
    found = rw written (lookup-adjust_self g f c s.conversations found);
    id = same;
    owner_id = names;
    owned = owned;
  };
  counted = counted;
  settled = settled;
}

-- The message of the system changes none of this.
pub posted-IsKept :
    (fresh now g v sender : ℕ) (text : MessageText) (s : Store)
    → IsKept g v s
    → IsKept g v (post_system_message fresh now g sender text s)
unfolding post_system_message
posted-IsKept fresh now g v sender text s h =
    let found = h.owned.found in
    let f : Conversation → Conversation = λ c. record c {
      last_message = some (record {
        message_id = fresh;
        sender_id = sender;
        type = MessageType.system;
        text_preview = text;
        created_at = now;
      });
      last_message_at = some now;
    } in
    rebuilt-IsKept g v h.owned.conversation f s _ found (rw (found, h.owned.id) refl) h.owned.id
      h.owned.owner_id (rw (==_self g) (touched-IsOwnedBy now v (s.members g) h.owned.owned))
      (h.counted
        ∙ sym (
            rw (==_self g)
              (count_active-map_values (touch now) (s.members g) (touch-is_active now))))
      (λ w n e.
        (let found = rw (==_self g) at e in
          let (o, at_w, same) = lookup-map_values_cases w (touch now) n (s.members g) found in
          let fit = h.settled w o at_w in rw (sym same) (ground arith)))
