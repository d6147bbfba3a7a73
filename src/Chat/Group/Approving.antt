-- ===== src/Chat/Group/Approving.antt =====
-- src/modules/chat/usecase/join-group-by-invite.ts and approve-member.ts: a request to join, and its
-- approval.
use chat_be.Base.{
  ℕ, ◌≡◌, refl, sym, ◌∙◌, ◌≢◌, Bool, true, false, Option, none, some, arith, ==_self, lookup,
  lookup-insert_self, lookup-insert_ne, ap, insert, lookup-adjust_self,
}
use chat_be.Chat.Model.{
  ok, ConversationMemberStatus, Conversation, ConversationMember, Store, member_approved,
}
use chat_be.Chat.Settings.{normalize_group_settings, is_active_status, is_active, is_active_member}
use chat_be.Chat.Group.Ownership.{is_group, post_system_message}
use chat_be.Chat.Group.Expelled.{posted_active}
use chat_be.Chat.Group.Roster.{
  is_user_blocked, is_active_manager, is_rejected_status, has_status, approve_guard, history_after,
  approve, can_view_history, approve_member,
}
use chat_be.Chat.Group.Joining.{write_row, pending_row, join_guard, admit, join_as, enter_group}
use chat_be.Chat.Poll.Managing.{manages}

-- The group lets members in by invite links, after approval.
pub record AsksApproval (c : Conversation) : Type 0 where
  pub group : is_group c.type ≡ true
  pub invites : (normalize_group_settings c.settings).allow_member_invite ≡ true
  pub approval : (normalize_group_settings c.settings).require_approval ≡ true

pending_there :
    (row_id now u : ℕ) (o : Option ConversationMember)
    → (has_status is_active_status (some (pending_row row_id now u o)) ≡ false)
      × (has_status is_rejected_status (some (pending_row row_id now u o)) ≡ false)
pending_there row_id now u none = (refl, refl)
pending_there row_id now u (some m) = (refl, refl)

approved_active :
    (row_id now u later : ℕ) (can_view : Bool) (o : Option ConversationMember)
    → is_active (record (pending_row row_id now u o) {
      status = ConversationMemberStatus.active;
      history_visible_from =
          history_after can_view later (pending_row row_id now u o).history_visible_from;
    })
      ≡ true
approved_active row_id now u later can_view none = refl
approved_active row_id now u later can_view (some m) = refl

asks :
    (fresh row_id now g u : ℕ) (name : ℕ → Option ℕ) (c : Conversation) (s : Store)
    → lookup g s.conversations ≡ some c
    → AsksApproval c
    → is_user_blocked g u s ≡ false
    → is_active_member (lookup u (s.members g)) ≡ false
    → (enter_group fresh row_id now name g u s).1
      ≡ write_row g u (pending_row row_id now u (lookup u (s.members g))) s
unfolding enter_group join_as admit
asks fresh row_id now g u name c s found door free gone =
    let group = door.group in
    let invites = door.invites in
    let approval = door.approval in
    let passes : join_guard c (is_user_blocked g u s) ≡ none = rw (group, invites, free) refl in
    ground arith

-- Who is not a member and not blocked asks by an invite link of a group that lets in after approval:
-- he is then no active member, and once a manager approves, which succeeds, he is one.
pub approve_member-lets_in :
    (fresh row_id now g u manager later other : ℕ) (name : ℕ → Option ℕ) (c : Conversation)
    (s : Store)
    → lookup g s.conversations ≡ some c
    → AsksApproval c
    → is_user_blocked g u s ≡ false
    → is_active_member (lookup u (s.members g)) ≡ false
    → is_active_manager (lookup manager (s.members g)) c ≡ true
    → (is_active_member (lookup u ((enter_group fresh row_id now name g u s).1.members g)) ≡ false)
      × ((approve_member other later name g u manager (enter_group fresh row_id now name g u s).1).0
          ≡ ok tt)
      × (is_active_member (
            lookup u (
              (approve_member other later name g u manager
                  (enter_group fresh row_id now name g u s).1).1.members
                g))
          ≡ true)
unfolding approve_member approve approve_guard
approve_member-lets_in fresh row_id now g u manager later other name c s found door free gone
      manages =
    let o = lookup u (s.members g) in
    let n = pending_row row_id now u o in
    let t = write_row g u n s in
    let asked = asks fresh row_id now g u name c s found door free gone in
    let (waits, fresh_row) = pending_there row_id now u o in
    let group = door.group in
    let at_u : lookup u (t.members g) ≡ some n =
      rw (==_self g) (lookup-insert_self u n (s.members g)) in
    let differ : manager ≢ u = λ e. (let known = rw (sym e) at gone in absurd (ground arith)) in
    let stays : lookup manager (t.members g) ≡ lookup manager (s.members g) =
      rw (==_self g) (lookup-insert_ne manager u n (s.members g) differ) in
    let passes : approve_guard c (lookup manager (t.members g)) (lookup u (t.members g)) ≡ none =
      rw (stays, at_u) (ground arith) in
    let can_view = can_view_history (lookup g t.conversations) in
    let text = member_approved (name manager) (name u) in
    let done : approve_member other later name g u manager t
        ≡ (ok tt, post_system_message other later g manager text (approve later g u can_view t)) =
      ground arith in
    let active = approved_active row_id now u later can_view o in
    let let_in : lookup u ((approve later g u can_view t).members g)
        ≡ some (record n {
          status = ConversationMemberStatus.active;
          history_visible_from = history_after can_view later n.history_visible_from;
        }) =
      rw (==_self g) (
        lookup-adjust_self u
          (λ m. record m {
            status = ConversationMemberStatus.active;
            history_visible_from = history_after can_view later m.history_visible_from;
          })
          n (insert u n (s.members g)) (lookup-insert_self u n (s.members g))) in
    (
      rw (asked, at_u) (ground arith),
      rw (asked, done) refl,
      rw (asked, done)
          (posted_active other later g manager u text _ ∙ ap is_active_member let_in ∙ active),
    )
