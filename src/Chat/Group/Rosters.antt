-- ===== src/Chat/Group/Rosters.antt =====
-- src/modules/chat/usecase/remove-member-from-group.ts, approve-member.ts and reject-member.ts: the
-- owner and the count of a group after them.
use chat_be.Base.{
  ℕ, ◌≡◌, refl, ◌≢◌, Bool, true, false, some, arith, ==_self, lookup, inl, inr, not, ◌&&◌, Option,
  none, ◌==◌, Bool-cases, Option-cases, is_some, insert,
}
use chat_be.Chat.Settings.{is_active_member, is_owner_role, is_active_status, is_active}
use chat_be.Chat.Model.{
  ConversationMember, Store, ConversationMemberStatus, Conversation, throw, ok, member_approved,
  member_rejected,
}
use chat_be.Chat.Group.Ownership.{is_owner_of, post_system_message}
use chat_be.Chat.Group.Keeping.{active_row, owner_passes}
use chat_be.Chat.Group.Transfer.{plain_of}
use chat_be.Chat.Group.Counted.{
  count_active-insert, is_settled, IsKept, bit, same-IsKept, posted-IsKept,
}
use chat_be.Chat.Group.Roster.{
  expel, has_admin_role, remove_guard, is_user_blocked, insert_block, block_removed, remove_member,
  has_status, approve_guard, history_after, one_more_member, approve, can_view_history,
  approve_member, reject_guard, reject, reject_member, removal_text,
}
use chat_be.Chat.Group.Rewriting.{row_written-IsKept, absent_ne, row_written_alone-IsKept}

-- A row of another member than the owner: its user, and that its role is not the owner's.
pub other_row :
    (g v u : ℕ) (m : ConversationMember) (s : Store)
    → IsKept g v s
    → u ≢ v
    → lookup u (s.members g) ≡ some m
    → (m.user_id ≡ u) × (is_owner_role m.role ≡ false) × (is_settled m ≡ true)
other_row g v u m s h ne at_u =
    let (user, only) = h.owned.owned.rows u m at_u in
    (user, plain_of v u m ne only, h.settled u m at_u)

-- Who is not taken for the owner is not the owner.
pub not_owner_ne :
    (g v u : ℕ) (s : Store) (h : IsKept g v s)
    → is_owner_of (lookup u (s.members g)) h.owned.conversation ≡ false
    → u ≢ v
not_owner_ne g v u s h other uv =
    let owner = owner_passes g v s h.owned in let known = rw uv at other in absurd (ground arith)

pub expel-IsKept :
    (now g v u : ℕ) (was_admin : Bool) (s : Store)
    → IsKept g v s
    → u ≢ v
    → is_active_member (lookup u (s.members g)) ≡ true
    → IsKept g v (expel now g u was_admin s)
unfolding expel
expel-IsKept now g v u was_admin s h ne there =
    let (m, at_u, active) = active_row (lookup u (s.members g)) there in
    let (user, plain, fit) = other_row g v u m s h ne at_u in
    let n : ConversationMember = record m { left_at = some now } in
    let after = count_active-insert u n (s.members g) in
    let counted = h.counted in
    let one : bit (is_active_member (lookup u (s.members g))) ≡ 1 = rw there refl in
    let none_left : bit (is_active n) ≡ 0 = refl in
    row_written-IsKept g v u n _ s _ h refl (rw (==_self g, at_u) refl) refl refl ne user plain
      (ground arith) (omega arith)

pub barred-IsKept :
    (now g v u by : ℕ) (s : Store) → IsKept g v s → IsKept g v (insert_block now g u by s)
unfolding insert_block
barred-IsKept now g v u by s h = same-IsKept g v s _ refl refl h

pub block_removed-IsKept :
    (block : Bool) (now g v u by : ℕ) (s : Store)
    → IsKept g v s
    → IsKept g v (block_removed block now g u by s)
unfolding block_removed
block_removed-IsKept block now g v u by s h =
    elim (Bool-cases (block && not (is_user_blocked g u s))) [
      | inl wanted ↦ rw wanted (barred-IsKept now g v u by s h)
      | inr plain ↦ rw plain h
    ]

remove_guard-passes :
    (c : Conversation) (requester target : Option ConversationMember) (is_self : Bool)
    → remove_guard c requester target is_self ≡ none
    → (is_active_member target ≡ true) × (is_owner_of target c ≡ false)
unfolding remove_guard
remove_guard-passes c requester target is_self e = (ground arith, ground arith)

-- `removeMember` keeps the owner of a group, and its count that of the active members.
pub remove_member-IsKept :
    (fresh now g v requester u : ℕ) (name : ℕ → Option ℕ) (block : Bool) (s : Store)
    → IsKept g v s
    → IsKept g v (remove_member fresh now name g requester u block s).1
unfolding remove_member
remove_member-IsKept fresh now g v requester u name block s h =
    let c = h.owned.conversation in
    let found = h.owned.found in
    let row = lookup requester (s.members g) in
    let target = lookup u (s.members g) in
    elim (Bool-cases (is_active_member row)) [
      | inr stranger ↦ rw stranger h
      | inl there ↦ elim (Option-cases (remove_guard c row target (requester == u))) [
        | inr (e, fails) ↦
            let thrown : remove_member fresh now name g requester u block s ≡ (throw e, s) =
              ground arith in
            rw thrown h
        | inl passes ↦
            let (active, other) = remove_guard-passes c row target (requester == u) passes in
            let ne = not_owner_ne g v u s h other in
            let text = removal_text (requester == u) (name requester) (name u) in
            let done : remove_member fresh now name g requester u block s ≡ (
              ok tt,
              block_removed block now g u requester (
                  post_system_message fresh now g requester text
                    (expel now g u (has_admin_role target) s)),
            ) =
              ground arith in
            rw done (
              block_removed-IsKept block now g v u requester _ (
                posted-IsKept fresh now g v requester _ _
                  (expel-IsKept now g v u (has_admin_role target) s h ne active)))
      ]
    ]

pub present_row :
    (o : Option ConversationMember) → is_some o ≡ true → (m : ConversationMember) × (o ≡ some m)
present_row none e = absurd (ground arith)
present_row (some m) e = (m, refl)

approve_guard-passes :
    (c : Conversation) (requester member : Option ConversationMember)
    → approve_guard c requester member ≡ none
    → (is_some member ≡ true) × (has_status is_active_status member ≡ false)
unfolding approve_guard
approve_guard-passes c requester member e = (ground arith, ground arith)

inactive_row :
    (o : Option ConversationMember)
    → has_status is_active_status o ≡ false
    → is_active_member o ≡ false
inactive_row none e = refl
inactive_row (some m) e = ground arith

approve-IsKept :
    (now g v u : ℕ) (can_view : Bool) (s : Store)
    → IsKept g v s
    → is_some (lookup u (s.members g)) ≡ true
    → has_status is_active_status (lookup u (s.members g)) ≡ false
    → IsKept g v (approve now g u can_view s)
unfolding approve
approve-IsKept now g v u can_view s h there waits =
    let (m, at_u) = present_row (lookup u (s.members g)) there in
    let gone = inactive_row (lookup u (s.members g)) waits in
    let ne = absent_ne v u (s.members g) h.owned.owned gone in
    let (user, plain, fit) = other_row g v u m s h ne at_u in
    let idle : is_active_status m.status ≡ false = rw at_u at waits in
    let stays : is_some m.left_at ≡ false = ground arith in
    let n : ConversationMember = record m {
      status = ConversationMemberStatus.active;
      history_visible_from = history_after can_view now m.history_visible_from;
    } in
    let now_active : bit (is_active n) ≡ 1 = rw stays refl in
    let was_not : bit (is_active_member (lookup u (s.members g))) ≡ 0 = rw gone refl in
    row_written-IsKept g v u n one_more_member s _ h refl (rw (==_self g, at_u) refl) refl refl ne
      user plain (ground arith) (omega arith)

-- `approveMember` keeps the owner of a group, and its count that of the active members.
pub approve_member-IsKept :
    (fresh now g v u requester : ℕ) (name : ℕ → Option ℕ) (s : Store)
    → IsKept g v s
    → IsKept g v (approve_member fresh now name g u requester s).1
unfolding approve_member
approve_member-IsKept fresh now g v u requester name s h =
    let c = h.owned.conversation in
    let found = h.owned.found in
    let row = lookup requester (s.members g) in
    let member = lookup u (s.members g) in
    elim (Option-cases (approve_guard c row member)) [
      | inr (e, fails) ↦
          let thrown : approve_member fresh now name g u requester s ≡ (throw e, s) =
            ground arith in
          rw thrown h
      | inl passes ↦
          let (there, waits) = approve_guard-passes c row member passes in
          let text = member_approved (name requester) (name u) in
          let done : approve_member fresh now name g u requester s ≡ (
            ok tt,
            post_system_message fresh now g requester text
                (approve now g u (can_view_history (lookup g s.conversations)) s),
          ) =
            ground arith in
          rw done (
            posted-IsKept fresh now g v requester _ _ (
              approve-IsKept now g v u (can_view_history (lookup g s.conversations)) s h there
                waits))
    ]

reject_guard-passes :
    (c : Conversation) (requester member : Option ConversationMember)
    → reject_guard c requester member ≡ none
    → (is_some member ≡ true) × (has_status is_active_status member ≡ false)
unfolding reject_guard
reject_guard-passes c requester member e = (ground arith, ground arith)

reject-IsKept :
    (g v u : ℕ) (s : Store)
    → IsKept g v s
    → is_some (lookup u (s.members g)) ≡ true
    → has_status is_active_status (lookup u (s.members g)) ≡ false
    → IsKept g v (reject g u s)
unfolding reject
reject-IsKept g v u s h there waits =
    let (m, at_u) = present_row (lookup u (s.members g)) there in
    let gone = inactive_row (lookup u (s.members g)) waits in
    let ne = absent_ne v u (s.members g) h.owned.owned gone in
    let (user, plain, fit) = other_row g v u m s h ne at_u in
    let idle : is_active_status m.status ≡ false = rw at_u at waits in
    let stays : is_some m.left_at ≡ false = ground arith in
    let n : ConversationMember = record m { status = ConversationMemberStatus.rejected } in
    let c = h.owned.conversation in
    let rows : (reject g u s).members g ≡ insert u n (s.members g) = rw (==_self g, at_u) refl in
    row_written_alone-IsKept g v u n s _ h refl rows ne user plain (ground arith)
      (rw gone (ground arith))

-- `rejectMember` keeps the owner of a group, and its count that of the active members.
pub reject_member-IsKept :
    (fresh now g v u requester : ℕ) (name : ℕ → Option ℕ) (s : Store)
    → IsKept g v s
    → IsKept g v (reject_member fresh now name g u requester s).1
unfolding reject_member
reject_member-IsKept fresh now g v u requester name s h =
    let c = h.owned.conversation in
    let found = h.owned.found in
    let row = lookup requester (s.members g) in
    let member = lookup u (s.members g) in
    elim (Option-cases (reject_guard c row member)) [
      | inr (e, fails) ↦
          let thrown : reject_member fresh now name g u requester s ≡ (throw e, s) = ground arith in
          rw thrown h
      | inl passes ↦
          let (there, waits) = reject_guard-passes c row member passes in
          let text = member_rejected (name requester) (name u) in
          let done : reject_member fresh now name g u requester s
              ≡ (ok tt, post_system_message fresh now g requester text (reject g u s)) =
            ground arith in
          rw done (posted-IsKept fresh now g v requester _ _ (reject-IsKept g v u s h there waits))
    ]
