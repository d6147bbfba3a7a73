-- ===== src/Chat/Group/Settled.antt =====
-- src/modules/chat/usecase/update-group-settings.ts, update-group-info.ts and
-- get-group-invite-link.ts: they touch neither the owner nor the members of a group.
use chat_be.Base.{
  ℕ, ◌≡◌, refl, ◌∙◌, inl, inr, Option, none, some, arith, Option-cases, lookup, values,
}
use chat_be.Chat.Model.{Action, throw, ok, StoredSettings, Conversation, GroupInviteLink, Store}
use chat_be.Chat.Settings.{normalize_group_settings}
use chat_be.Chat.Group.Ownership.{update_conversation}
use chat_be.Chat.Group.Counted.{IsKept, same-IsKept, rebuilt-IsKept, posted-IsKept}
use chat_be.Chat.Group.Links.{
  invite_link_guard, find_active_link, on_link, token_or_new, get_group_invite_link, renew,
  regenerate_group_invite_link, revoke_found, revoke_group_invite_link,
}
use chat_be.Chat.Group.Info.{
  changed_settings, settings_guard, update_group_settings, info_guard, name_of, write_info,
  announce_info, update_group_info,
}
use chat_be.Chat.Group.Founding.{stored_settings}

-- A change of the conversation that keeps its id, its owner and its count.
conversation-IsKept :
    (g v : ℕ) (f : Conversation → Conversation) (s : Store) (h : IsKept g v s)
    → (f h.owned.conversation).id ≡ h.owned.conversation.id
    → (f h.owned.conversation).owner_id ≡ h.owned.conversation.owner_id
    → (f h.owned.conversation).members_count ≡ h.owned.conversation.members_count
    → IsKept g v (update_conversation g f s)
conversation-IsKept g v f s h id names count =
    rebuilt-IsKept g v h.owned.conversation f s (update_conversation g f s) h.owned.found refl
      (id ∙ h.owned.id) (names ∙ h.owned.owner_id) h.owned.owned (count ∙ h.counted) h.settled

-- `updateGroupSettings` keeps the owner of a group, and its count that of the active members.
pub update_group_settings-IsKept :
    (g v requester : ℕ) (change : StoredSettings) (s : Store)
    → IsKept g v s
    → IsKept g v (update_group_settings g requester change s).1
unfolding update_group_settings
update_group_settings-IsKept g v requester change s h =
    let c = h.owned.conversation in
    let found = h.owned.found in
    let run = update_group_settings g requester change s in
    elim (Option-cases (settings_guard c (lookup requester (s.members g)))) [
      | inr (e, fails) ↦ (let thrown : run ≡ (throw e, s) = ground arith in rw thrown h)
      | inl passes ↦
          let f : Conversation → Conversation = λ c. record c {
            settings =
                some
                  (stored_settings (changed_settings change (normalize_group_settings c.settings)));
          } in
          let done : run ≡ (ok tt, update_conversation g f s) = ground arith in
          rw done (conversation-IsKept g v f s h refl refl refl)
    ]

announce_info-IsKept :
    (fresh next_fresh now g v u : ℕ) (by old new_name new_avatar : Option ℕ) (s : Store)
    → IsKept g v s
    → IsKept g v (announce_info fresh next_fresh now by old g u new_name new_avatar s)
unfolding announce_info
announce_info-IsKept fresh next_fresh now g v u by old none none s h = h
announce_info-IsKept fresh next_fresh now g v u by old (some new_name) none s h =
    posted-IsKept fresh now g v u _ s h
announce_info-IsKept fresh next_fresh now g v u by old none (some new_avatar) s h =
    posted-IsKept next_fresh now g v u _ s h
announce_info-IsKept fresh next_fresh now g v u by old (some new_name) (some new_avatar) s h =
    posted-IsKept next_fresh now g v u _ _ (same-IsKept g v s _ refl refl h)

write_info-IsKept :
    (g v : ℕ) (new_name new_avatar : Option ℕ) (s : Store)
    → IsKept g v s
    → IsKept g v (write_info g new_name new_avatar s)
unfolding write_info
write_info-IsKept g v new_name new_avatar s h = conversation-IsKept g v _ s h refl refl refl

-- `updateGroupInfo` keeps the owner of a group, and its count that of the active members.
pub update_group_info-IsKept :
    (fresh next_fresh now g v requester : ℕ) (name : ℕ → Option ℕ) (new_name new_avatar : Option ℕ)
    (s : Store)
    → IsKept g v s
    → IsKept g v (update_group_info fresh next_fresh now name g requester new_name new_avatar s).1
unfolding update_group_info
update_group_info-IsKept fresh next_fresh now g v requester name new_name new_avatar s h =
    let c = h.owned.conversation in
    let found = h.owned.found in
    let run = update_group_info fresh next_fresh now name g requester new_name new_avatar s in
    elim (Option-cases (info_guard c (lookup requester (s.members g)))) [
      | inr (e, fails) ↦ (let thrown : run ≡ (throw e, s) = ground arith in rw thrown h)
      | inl passes ↦
          let old = name_of (lookup g s.conversations) in
          let t = write_info g new_name new_avatar s in
          let done : run ≡ (
            ok tt,
            announce_info fresh next_fresh now (name requester) old g requester new_name new_avatar
                t,
          ) =
            ground arith in
          rw done (
            announce_info-IsKept fresh next_fresh now g v requester (name requester) old new_name
              new_avatar t (write_info-IsKept g v new_name new_avatar s h))
    ]

-- A handler of the invite link, whatever it does with the links.
on_link-IsKept :
    {A : Type 0} (g v requester : ℕ) (act : Option GroupInviteLink → Action A) (s : Store)
    → IsKept g v s
    → ((o : Option GroupInviteLink) → IsKept g v (act o s).1)
    → IsKept g v (on_link g requester act s).1
on_link-IsKept g v requester act s h keeps =
    let c = h.owned.conversation in
    let found = h.owned.found in
    elim (Option-cases (invite_link_guard c (lookup requester (s.members g)))) [
      | inr (e, fails) ↦
          let thrown : (on_link g requester act s).1 ≡ s = ground arith in rw thrown h
      | inl passes ↦
          let o = find_active_link g (values s.invite_links) in
          let done : (on_link g requester act s).1 ≡ (act o s).1 = ground arith in rw done (keeps o)
    ]

-- The handlers of the invite link keep the owner of a group, and its count that of the active
-- members.
pub get_group_invite_link-IsKept :
    (fresh now g v requester : ℕ) (s : Store)
    → IsKept g v s
    → IsKept g v (get_group_invite_link fresh now g requester s).1
unfolding get_group_invite_link
get_group_invite_link-IsKept fresh now g v requester s h =
    on_link-IsKept g v requester (token_or_new fresh now g requester) s h (λ o.
      elim o as (λ o. IsKept g v (token_or_new fresh now g requester o s).1) [
        | none ↦ same-IsKept g v s _ refl refl h
        | some link ↦ h
      ])

pub regenerate_group_invite_link-IsKept :
    (fresh now g v requester : ℕ) (s : Store)
    → IsKept g v s
    → IsKept g v (regenerate_group_invite_link fresh now g requester s).1
unfolding regenerate_group_invite_link
regenerate_group_invite_link-IsKept fresh now g v requester s h =
    on_link-IsKept g v requester (renew fresh now g requester) s h (λ o.
      elim o as (λ o. IsKept g v (renew fresh now g requester o s).1) [
        | none ↦ same-IsKept g v s _ refl refl h
        | some link ↦ same-IsKept g v s _ refl refl h
      ])

pub revoke_group_invite_link-IsKept :
    (now g v requester : ℕ) (s : Store)
    → IsKept g v s
    → IsKept g v (revoke_group_invite_link now g requester s).1
unfolding revoke_group_invite_link
revoke_group_invite_link-IsKept now g v requester s h =
    on_link-IsKept g v requester (revoke_found now requester) s h (λ o.
      elim o as (λ o. IsKept g v (revoke_found now requester o s).1) [
        | none ↦ h
        | some link ↦ same-IsKept g v s _ refl refl h
      ])
