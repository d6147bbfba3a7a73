-- ===== src/Chat/Membership.antt =====
-- src/modules/chat/usecase/chat-access-policy.ts: who is an active member of a conversation.
use chat_be.Base.{
  ℕ, ◌≡◌, refl, ◌∙◌, inl, inr, Bool, true, false, not, ◌&&◌, Option, none, some, List, [], ◌∷◌,
  arith, ◌==◌, if◌then◌else◌, eq_of_==, ==_self, Bool-cases, is_some, includes, Dict, lookup, keys,
  values, includes-keys, sym, ap,
}
use chat_be.Chat.Model.{Conversation, ConversationMember, Store}
use chat_be.Chat.Access.{AccessError, not_active_member, conversation_not_found, not_group}
use chat_be.Chat.Settings.{is_active, is_active_member, is_user}
use chat_be.Chat.Poll.Voters.{is_distinct}
use chat_be.Chat.Group.Ownership.{is_group}

-- What a check gives, or what it throws.
pub data Checked (A : Type 0) : Type 0 where
  passed : A → Checked A
  failed : AccessError → Checked A

abbrev pub checked_member : Option ConversationMember → Checked ConversationMember
checked_member none = failed not_active_member
checked_member (some m) = if is_active m then passed m else failed not_active_member

unfoldable pub assert_active_member : Store → ℕ → ℕ → Checked ConversationMember
assert_active_member s conversation_id user_id =
    checked_member (lookup user_id (s.members conversation_id))

abbrev pub checked_group : Option Conversation → Checked Conversation
checked_group none = failed conversation_not_found
checked_group (some c) = if is_group c.type then passed c else failed not_group

unfoldable pub assert_group_conversation : Store → ℕ → Checked Conversation
assert_group_conversation s conversation_id = checked_group (lookup conversation_id s.conversations)

abbrev pub and_then : Checked Conversation → Checked ConversationMember → Checked ConversationMember
and_then (failed e) next = failed e
and_then (passed c) next = next

unfoldable pub assert_active_group_member : Store → ℕ → ℕ → Checked ConversationMember
assert_active_group_member s conversation_id user_id =
    and_then (assert_group_conversation s conversation_id)
      (assert_active_member s conversation_id user_id)

abbrev pub is_listed : Option ℕ → ConversationMember → Bool
is_listed excluded m = is_active m && not (is_user excluded m.user_id)

abbrev pub listed_ids : Option ℕ → List ConversationMember → List ℕ
listed_ids excluded [] = []
listed_ids excluded (m ∷ ms) =
    if is_listed excluded m then m.user_id ∷ listed_ids excluded ms else listed_ids excluded ms

unfoldable pub get_active_member_user_ids : Store → ℕ → Option ℕ → List ℕ
get_active_member_user_ids s conversation_id excluded =
    listed_ids excluded (values (s.members conversation_id))

abbrev pub has_passed : {A : Type 0} → Checked A → Bool
has_passed (passed a) = true
has_passed (failed e) = false

-- Each row of a table of members stands once, under its user.
pub record IsKeyed (d : Dict ConversationMember) : Type 0 where
  pub distinct : is_distinct (keys d) ≡ true
  pub named : (w : ℕ) (m : ConversationMember) → lookup w d ≡ some m → m.user_id ≡ w

tail-IsKeyed :
    (k : ℕ) (m : ConversationMember) (d : Dict ConversationMember)
    → IsKeyed ((k, m) ∷ d)
    → IsKeyed d
tail-IsKeyed k m d h = record {
  distinct = (let e = h.distinct in ground arith);
  named = λ w n at_w.
      (let e = h.distinct in
        let there = includes-keys w d in
        let other : w == k ≡ false = elim (Bool-cases (w == k)) [
          | inl same ↦
              (let wk = eq_of_== w k same in
                let found : is_some (lookup w d) ≡ true = rw at_w refl in
                let here = rw wk at (there ∙ found) in absurd (ground arith))
          | inr ne ↦ ne
        ] in
        h.named w n (rw other at_w));
}

absent_row :
    (o : Option ConversationMember) (b : Bool)
    → is_some o ≡ false
    → (is_active_member o && not b) ≡ false
absent_row none b e = refl
absent_row (some m) b e = absurd (ground arith)

first_row :
    (excluded : Option ℕ) (u : ℕ) (m : ConversationMember) (ids : List ℕ)
    → m.user_id ≡ u
    → u == m.user_id ≡ true
    → includes u ids ≡ false
    → includes u (if is_listed excluded m then m.user_id ∷ ids else ids)
      ≡ (is_active m && not (is_user excluded u))
first_row excluded u m ids um hit gone =
    let same : is_user excluded m.user_id ≡ is_user excluded u = ap (is_user excluded) um in
    elim (Bool-cases (is_listed excluded m)) [
      | inl listed ↦ rw listed (rw hit (sym (rw same at listed)))
      | inr skipped ↦ rw skipped (gone ∙ sym (rw same at skipped))
    ]

passes_if_active :
    (o : Option ConversationMember) → is_active_member o ≡ has_passed (checked_member o)
passes_if_active none = refl
passes_if_active (some m) = ground arith

listed_ids-lookup :
    (excluded : Option ℕ) (u : ℕ) (d : Dict ConversationMember)
    → IsKeyed d
    → includes u (listed_ids excluded (values d))
      ≡ (is_active_member (lookup u d) && not (is_user excluded u))
listed_ids-lookup excluded u [] h = refl
listed_ids-lookup excluded u ((k, m) ∷ d) h =
    let rest = listed_ids-lookup excluded u d (tail-IsKeyed k m d h) in
    let e = h.distinct in
    let mine : m.user_id ≡ k = h.named k m (rw (==_self k) refl) in
    let there = includes-keys k d in
    elim (Bool-cases (u == k)) [
      | inl same ↦
          let uk = eq_of_== u k same in
          let um : m.user_id ≡ u = mine ∙ sym uk in
          let gone : includes u (listed_ids excluded (values d)) ≡ false =
            rest
            ∙ (let none_there : is_some (lookup u d) ≡ false = rw uk (ground arith) in
                absent_row (lookup u d) (is_user excluded u) none_there) in
          let hit : u == m.user_id ≡ true = ground arith in
          first_row excluded u m (listed_ids excluded (values d)) um hit gone ∙ rw same refl
      | inr other ↦
          let miss : u == m.user_id ≡ false = ground arith in
          elim (Bool-cases (is_listed excluded m)) [
            | inl listed ↦ rw (other, listed) (rw miss rest)
            | inr skipped ↦ rw (other, skipped) rest
          ]
    ]

-- `getActiveMemberUserIds` gives exactly the users who pass `assertActiveMember`, but the one who is
-- excluded, where each row of the members stands once and under its user.
pub get_active_members-IsActive :
    (s : Store) (conversation_id u : ℕ) (excluded : Option ℕ)
    → IsKeyed (s.members conversation_id)
    → includes u (get_active_member_user_ids s conversation_id excluded)
      ≡ (has_passed (assert_active_member s conversation_id u) && not (is_user excluded u))
unfolding get_active_member_user_ids assert_active_member
get_active_members-IsActive s conversation_id u excluded h =
    listed_ids-lookup excluded u (s.members conversation_id) h
    ∙ ap (λ b. b && not (is_user excluded u))
        (passes_if_active (lookup u (s.members conversation_id)))
