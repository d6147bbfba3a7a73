-- ===== src/Chat/Group/Joins.antt =====
-- src/modules/chat/usecase/join-group-by-invite.ts: the owner and the count of a group after it.
use chat_be.Base.{
  ℕ, ◌≡◌, refl, sym, ◌∙◌, ◌≢◌, inl, inr, Bool, true, false, Option, none, some, arith, ==_self,
  Bool-cases, Option-cases, lookup,
}
use chat_be.Chat.Model.{throw, GroupSettings, ConversationMember, Store}
use chat_be.Chat.Settings.{normalize_group_settings, is_active, is_active_member, is_owner_role}
use chat_be.Chat.Group.Counted.{bit, is_settled, IsKept, posted-IsKept}
use chat_be.Chat.Group.Rosters.{other_row}
use chat_be.Chat.Group.Roster.{is_user_blocked, one_more_member}
use chat_be.Chat.Group.Joining.{pending_row, joined_row, join_guard, admit, join_as, enter_group}
use chat_be.Chat.Group.Rewriting.{absent_ne, row_written-IsKept, row_written_alone-IsKept}

pending_row-IsFit :
    (row_id now g v u : ℕ) (s : Store)
    → IsKept g v s
    → u ≢ v
    → ((pending_row row_id now u (lookup u (s.members g))).user_id ≡ u)
      × (is_owner_role (pending_row row_id now u (lookup u (s.members g))).role ≡ false)
pending_row-IsFit row_id now g v u s h ne = elim (Option-cases (lookup u (s.members g))) [
  | inl absent ↦ rw absent (refl, refl)
  | inr (m, at_u) ↦ let (user, plain, fit) = other_row g v u m s h ne at_u in rw at_u (user, plain)
]

pending_row-is_settled :
    (row_id now u : ℕ) (o : Option ConversationMember)
    → (is_settled (pending_row row_id now u o) ≡ true)
      × (is_active (pending_row row_id now u o) ≡ false)
pending_row-is_settled row_id now u none = (refl, refl)
pending_row-is_settled row_id now u (some m) = (refl, refl)

joined_row-IsFit :
    (can_view : Bool) (row_id now g v u : ℕ) (s : Store)
    → IsKept g v s
    → ((joined_row can_view row_id now u (lookup u (s.members g))).user_id ≡ u)
joined_row-IsFit can_view row_id now g v u s h = elim (Option-cases (lookup u (s.members g))) [
  | inl absent ↦ rw absent refl
  | inr (m, at_u) ↦ rw at_u (h.owned.owned.rows u m at_u).0
]

joined_row-is_active :
    (can_view : Bool) (row_id now u : ℕ) (o : Option ConversationMember)
    → (is_settled (joined_row can_view row_id now u o) ≡ true)
      × (is_active (joined_row can_view row_id now u o) ≡ true)
      × (is_owner_role (joined_row can_view row_id now u o).role ≡ false)
joined_row-is_active can_view row_id now u none = (refl, refl, refl)
joined_row-is_active can_view row_id now u (some m) = (refl, refl, refl)

admit-IsKept :
    (fresh row_id now g v u : ℕ) (name : ℕ → Option ℕ) (settings : GroupSettings) (s : Store)
    → IsKept g v s
    → is_active_member (lookup u (s.members g)) ≡ false
    → IsKept g v (admit fresh row_id now name g u settings (lookup u (s.members g)) s).1
unfolding admit
admit-IsKept fresh row_id now g v u name settings s h gone =
    let o = lookup u (s.members g) in
    let ne = absent_ne v u (s.members g) h.owned.owned gone in
    elim (Bool-cases settings.require_approval) [
      | inl approval ↦
          let (user, plain) = pending_row-IsFit row_id now g v u s h ne in
          let (fit, waits) = pending_row-is_settled row_id now u o in
          rw approval (
            row_written_alone-IsKept g v u (pending_row row_id now u o) s _ h refl
              (rw (==_self g) refl) ne user plain fit (gone ∙ sym waits))
      | inr unrestricted ↦
          let can_view = settings.new_member_can_view_history in
          let n = joined_row can_view row_id now u o in
          let user = joined_row-IsFit can_view row_id now g v u s h in
          let (fit, active, plain) = joined_row-is_active can_view row_id now u o in
          let was_not : bit (is_active_member o) ≡ 0 = rw gone refl in
          let is_now : bit (is_active n) ≡ 1 = rw active refl in
          rw unrestricted (
            posted-IsKept fresh now g v u _ _ (
              row_written-IsKept g v u n one_more_member s _ h refl (rw (==_self g) refl) refl refl
                ne user plain fit (omega arith)))
    ]

-- `joinGroupByInvite`, from the conversation of the link on, keeps the owner of a group, and its
-- count that of the active members.
pub enter_group-IsKept :
    (fresh row_id now g v u : ℕ) (name : ℕ → Option ℕ) (s : Store)
    → IsKept g v s
    → IsKept g v (enter_group fresh row_id now name g u s).1
unfolding enter_group join_as
enter_group-IsKept fresh row_id now g v u name s h =
    let c = h.owned.conversation in
    let found = h.owned.found in
    let o = lookup u (s.members g) in
    let settings = normalize_group_settings c.settings in
    elim (Option-cases (join_guard c (is_user_blocked g u s))) [
      | inr (e, fails) ↦
          let thrown : enter_group fresh row_id now name g u s ≡ (throw e, s) = ground arith in
          rw thrown h
      | inl passes ↦ elim (Bool-cases (is_active_member o)) [
        | inl there ↦
            let same : (enter_group fresh row_id now name g u s).1 ≡ s = ground arith in rw same h
        | inr gone ↦
            let done : enter_group fresh row_id now name g u s
                ≡ admit fresh row_id now name g u settings o s =
              ground arith in
            rw done (admit-IsKept fresh row_id now g v u name settings s h gone)
      ]
    ]
