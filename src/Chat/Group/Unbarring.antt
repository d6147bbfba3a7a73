-- ===== src/Chat/Group/Unbarring.antt =====
-- src/modules/chat/usecase/group-block.ts: a block and its end.
use chat_be.Base.{
  ℕ, ◌≡◌, refl, ap, ◌∙◌, ◌≢◌, inl, inr, Bool, true, false, Option, none, some, arith, ==_self,
  Option-cases, Dict, lookup, map_values, lookup-map_values, adjust, lookup-adjust_ne, sym, ◌==◌,
  eq_of_==, ne_of_==, Bool-cases, insert, lookup-insert, lookup-delete, lookup-insert_ne, is_some,
}
use chat_be.Chat.Settings.{is_active_member}
use chat_be.Chat.Model.{
  MessageText, Conversation, ConversationMember, ChatError, Store, throw, ok, member_blocked,
}
use chat_be.Chat.Group.Ownership.{touch, post_system_message}
use chat_be.Chat.Group.Roster.{expel, has_admin_role, is_user_blocked, insert_block}
use chat_be.Chat.Group.Barring.{
  leads, block_member_guard, expel_if, block_group_member, unblock_guard, delete_block,
  unblock_group_member,
}
use chat_be.Chat.Group.Expelled.{touched_active, inserted_block}
use chat_be.Chat.Group.Effects.{threw_ne}

block_member_guard-leads :
    (c : Conversation) (requester target : Option ConversationMember) (is_blocked : Bool)
    → block_member_guard c requester target is_blocked ≡ none
    → (is_active_member requester ≡ true) × (leads requester ≡ true) × (is_blocked ≡ false)
unfolding block_member_guard
block_member_guard-leads c requester target is_blocked e =
    (ground arith, ground arith, ground arith)

touched_leads :
    (now w : ℕ) (ms : Dict ConversationMember)
    → leads (lookup w (map_values (touch now) ms)) ≡ leads (lookup w ms)
touched_leads now w ms = elim (Option-cases (lookup w ms)) [
  | inl absent ↦ rw (lookup-map_values (touch now) w ms, absent) refl
  | inr (m, found) ↦ rw (lookup-map_values (touch now) w ms, found) (ground arith)
]

-- Another than the one who is put out keeps the right to lead, the conversation stays, and so do the
-- blocks.
expel_if-requester :
    (b : Bool) (fresh now g sender u w : ℕ) (was_admin : Bool) (text : MessageText) (s : Store)
    → is_active_member (lookup u (s.members g)) ≡ b
    → w ≢ u
    → (is_active_member (lookup w ((expel_if b fresh now g sender u was_admin text s).members g))
        ≡ is_active_member (lookup w (s.members g)))
      × (leads (lookup w ((expel_if b fresh now g sender u was_admin text s).members g))
          ≡ leads (lookup w (s.members g)))
      × ((expel_if b fresh now g sender u was_admin text s).group_blocks ≡ s.group_blocks)
unfolding expel_if expel post_system_message
expel_if-requester false fresh now g sender u w was_admin text s there ne = (refl, refl, refl)
expel_if-requester true fresh now g sender u w was_admin text s there ne =
    let part : ConversationMember → ConversationMember = λ m. record m { left_at = some now } in
    let stays = lookup-adjust_ne w u part (s.members g) ne in
    (
      rw (==_self g)
          (touched_active now w (adjust u part (s.members g)) ∙ ap is_active_member stays),
      rw (==_self g) (touched_leads now w (adjust u part (s.members g)) ∙ ap leads stays),
      refl,
    )

none_of : {A : Type 0} (o : Option A) → is_some o ≡ false → o ≡ none
none_of none e = refl
none_of (some a) e = absurd (ground arith)

inserted_members : (now g u by : ℕ) (s : Store) → (insert_block now g u by s).members ≡ s.members
unfolding insert_block
inserted_members now g u by s = refl

block_then_delete :
    (now g u by w : ℕ) (s : Store)
    → is_user_blocked g u s ≡ false
    → lookup w ((delete_block g u (insert_block now g u by s)).group_blocks g)
      ≡ lookup w (s.group_blocks g)
unfolding delete_block insert_block
block_then_delete now g u by w s free = elim (Bool-cases (w == u)) [
  | inl same ↦
      let wu = eq_of_== w u same in
      rw (==_self g, lookup-delete w u (insert u _ (s.group_blocks g)), same)
        (sym
          (ap (λ k. lookup k (s.group_blocks g)) wu ∙ none_of (lookup u (s.group_blocks g)) free))
  | inr other ↦
      rw (==_self g, lookup-delete w u (insert u _ (s.group_blocks g)), other)
        (lookup-insert_ne w u _ (s.group_blocks g) (ne_of_== w u other))
]

-- A conversation that is there stays there.
found_inserted :
    (g k : ℕ) (c : Conversation) (d : Dict Conversation)
    → is_some (lookup g d) ≡ true
    → is_some (lookup g (insert k c d)) ≡ true
found_inserted g k c d there = ground (arith, lookup-insert g k c d)

found_adjusted :
    (g k : ℕ) (f : Conversation → Conversation) (d : Dict Conversation)
    → is_some (lookup g d) ≡ true
    → is_some (lookup g (adjust k f d)) ≡ true
found_adjusted g k f d there = elim (Option-cases (lookup k d)) [
  | inl absent ↦ rw absent there
  | inr (c, found) ↦ rw found (found_inserted g k (f c) d there)
]

found_posted :
    (fresh now g sender : ℕ) (text : MessageText) (s : Store)
    → is_some (lookup g s.conversations) ≡ true
    → is_some (lookup g (post_system_message fresh now g sender text s).conversations) ≡ true
unfolding post_system_message
found_posted fresh now g sender text s there = elim (Option-cases (lookup g s.conversations)) [
  | inl absent ↦ absurd (ground arith)
  | inr (c, found) ↦ rw found (found_inserted g c.id _ s.conversations there)
]

expel_if-found :
    (b : Bool) (fresh now g sender u : ℕ) (was_admin : Bool) (text : MessageText) (s : Store)
    → is_some (lookup g s.conversations) ≡ true
    → is_some (lookup g (expel_if b fresh now g sender u was_admin text s).conversations) ≡ true
unfolding expel_if expel
expel_if-found false fresh now g sender u was_admin text s there = there
expel_if-found true fresh now g sender u was_admin text s there =
    found_posted fresh now g sender text (expel now g u was_admin s)
      (found_adjusted g g _ s.conversations there)

inserted_conversations :
    (now g u by : ℕ) (s : Store) → (insert_block now g u by s).conversations ≡ s.conversations
unfolding insert_block
inserted_conversations now g u by s = refl

unblock-runs :
    (g requester u : ℕ) (t : Store)
    → is_some (lookup g t.conversations) ≡ true
    → is_active_member (lookup requester (t.members g)) ≡ true
    → leads (lookup requester (t.members g)) ≡ true
    → is_user_blocked g u t ≡ true
    → unblock_group_member g requester u t ≡ (ok tt, delete_block g u t)
unfolding unblock_group_member unblock_guard
unblock-runs g requester u t there active leading blocked =
    elim (Option-cases (lookup g t.conversations)) [
      | inl absent ↦ absurd (ground arith)
      | inr (c, found) ↦ ground arith
    ]

-- After `blockGroupMember` has succeeded, `unblockGroupMember` of the same requester, who is not the
-- target, succeeds, and the blocks of the group are again what they were.
pub block_group_member-unblock :
    (fresh now g requester u : ℕ) (name : ℕ → Option ℕ) (s : Store)
    → requester ≢ u
    → (block_group_member fresh now name g requester u s).0 ≡ ok tt
    → ((unblock_group_member g requester u (block_group_member fresh now name g requester u s).1).0
        ≡ ok tt)
      × ((w : ℕ)
          → lookup w (
              (unblock_group_member g requester u
                  (block_group_member fresh now name g requester u s).1).1.group_blocks
                g)
            ≡ lookup w (s.group_blocks g))
unfolding block_group_member
block_group_member-unblock fresh now g requester u name s ne succeeds =
    let row = lookup requester (s.members g) in
    let target = lookup u (s.members g) in
    elim (Option-cases (lookup g s.conversations)) [
      | inl absent ↦
          let thrown : block_group_member fresh now name g requester u s
              ≡ (throw ChatError.group_not_found, s) =
            ground arith in
          absurd (threw_ne ChatError.group_not_found tt _ s thrown succeeds)
      | inr (c, found) ↦
          elim (Option-cases (block_member_guard c row target (is_user_blocked g u s))) [
            | inr (e, fails) ↦
                let thrown : block_group_member fresh now name g requester u s ≡ (throw e, s) =
                  ground arith in
                absurd (threw_ne e tt _ s thrown succeeds)
            | inl passes ↦
                let (active, leading, free) =
                  block_member_guard-leads c row target (is_user_blocked g u s) passes in
                let text = member_blocked (name requester) (name u) in
                let b = is_active_member target in
                let t = expel_if b fresh now g requester u (has_admin_role target) text s in
                let done : block_group_member fresh now name g requester u s
                    ≡ (ok tt, insert_block now g u requester t) =
                  ground arith in
                let (still, leads_still, same) =
                  expel_if-requester b fresh now g requester u requester (has_admin_role target)
                    text s refl ne in
                let there =
                  expel_if-found b fresh now g requester u (has_admin_role target) text s
                    (rw found refl) in
                let free_t : is_user_blocked g u t ≡ false = rw same free in
                let r = insert_block now g u requester t in
                let undone : unblock_group_member g requester u r ≡ (ok tt, delete_block g u r) =
                  unblock-runs g requester u r
                    (rw (inserted_conversations now g u requester t) there)
                    (rw (inserted_members now g u requester t) (still ∙ active))
                    (rw (inserted_members now g u requester t) (leads_still ∙ leading))
                    (inserted_block now g u requester u t ∙ ground (arith, ==_self u)) in
                (
                  rw (done, undone) refl,
                  λ w.
                      rw (done, undone)
                        (block_then_delete now g u requester w t free_t
                          ∙ ap (λ d. lookup w (d g)) same),
                )
          ]
    ]
