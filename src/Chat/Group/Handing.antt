-- ===== src/Chat/Group/Handing.antt =====
-- src/modules/chat/usecase/transfer-owner.ts and set-admin.ts: the owner and the count of a group
-- after them.
use chat_be.Base.{
  ℕ, ◌≡◌, refl, sym, ◌∙◌, ◌≢◌, inl, inr, Bool, true, Option, some, arith, ==_self, Option-cases,
  Dict, lookup, adjust, lookup-adjust_cases,
}
use chat_be.Chat.Model.{
  ok, throw, ConversationMemberRole, ConversationMember, Store, owner_transferred,
}
use chat_be.Chat.Settings.{is_active, owns}
use chat_be.Chat.Group.Ownership.{
  set_role, post_system_message, transfer_guard, hand_over, transfer_owner, set_admin_guard,
  admin_role, admin_text, change_admin, set_admin,
}
use chat_be.Chat.Group.Keeping.{
  transfer_guard-passes, plain_role, active_row, set_admin_guard-passes,
}
use chat_be.Chat.Group.Transfer.{adjusted-IsOwnedBy, handed-IsOwnedBy}
use chat_be.Chat.Group.Counted.{
  count_active-adjust_same, is_settled, IsKept, rebuilt-IsKept, posted-IsKept,
}
use chat_be.Chat.Group.Rosters.{not_owner_ne}
use chat_be.Chat.Group.Owned.{owner_of}

pub adjusted-is_settled :
    (u : ℕ) (f : ConversationMember → ConversationMember) (ms : Dict ConversationMember)
    → ((w : ℕ) (m : ConversationMember) → lookup w ms ≡ some m → is_settled m ≡ true)
    → ((m : ConversationMember) → is_settled m ≡ true → is_settled (f m) ≡ true)
    → (w : ℕ) (m : ConversationMember) → lookup w (adjust u f ms) ≡ some m
    → is_settled m ≡ true
adjusted-is_settled u f ms h keeps w m e = elim (lookup-adjust_cases w u f m ms e) [
  | inr (other, old) ↦ h w m old
  | inl (wu, o, at_u, same) ↦ rw (sym same) (keeps o (h u o at_u))
]

hand_over-IsKept :
    (g u v : ℕ) (m : ConversationMember) (s : Store)
    → IsKept g u s
    → lookup v (s.members g) ≡ some m
    → is_active m ≡ true
    → IsKept g v (hand_over g u v s)
unfolding hand_over
hand_over-IsKept g u v m s h at_v active =
    let ms = s.members g in
    let f = set_role ConversationMemberRole.admin in
    let middle = adjust u f ms in
    let owner = set_role ConversationMemberRole.owner in
    rebuilt-IsKept g v h.owned.conversation _ s _ h.owned.found refl h.owned.id refl
      (rw (==_self g) (handed-IsOwnedBy u v m ms h.owned.owned at_v active))
      (rw (==_self g) (
        h.counted
        ∙ sym (
            count_active-adjust_same v owner middle (λ o. refl)
            ∙ count_active-adjust_same u f ms (λ o. refl))))
      (rw (==_self g) (
        adjusted-is_settled v owner middle (adjusted-is_settled u f ms h.settled (λ o e. e))
          (λ o e. e)))

-- `transferOwner` keeps a group owned, by its owner or by the one named, and its count that of the
-- active members.
pub transfer_owner-IsKept :
    (fresh now g o u v : ℕ) (name : ℕ → Option ℕ) (s : Store)
    → IsKept g o s
    → (w : ℕ) × IsKept g w (transfer_owner fresh now name g u v s).1
unfolding transfer_owner
transfer_owner-IsKept fresh now g o u v name s h =
    let c = h.owned.conversation in
    let found = h.owned.found in
    let row = lookup u (s.members g) in
    let target = lookup v (s.members g) in
    elim (Option-cases (transfer_guard c row target)) [
      | inr (e, fails) ↦
          let thrown : transfer_owner fresh now name g u v s ≡ (throw e, s) = ground arith in
          (o, rw thrown h)
      | inl passes ↦
          let (owns, active) = transfer_guard-passes c row target passes in
          let mine = owner_of g o u c s h.owned found owns in
          let (m, at_v, fit) = active_row target active in
          let text = owner_transferred (name u) (name v) in
          let done : transfer_owner fresh now name g u v s
              ≡ (ok tt, post_system_message fresh now g u text (hand_over g u v s)) =
            ground arith in
          (
            v,
            rw done (
                posted-IsKept fresh now g v u text _
                  (hand_over-IsKept g u v m s (rw (sym mine) at h) at_v fit)),
          )
    ]

change_admin-IsKept :
    (g o v : ℕ) (is_admin : Bool) (s : Store)
    → IsKept g o s
    → v ≢ o
    → IsKept g o (change_admin g v is_admin s)
unfolding change_admin
change_admin-IsKept g o v is_admin s h ne =
    let f = set_role (admin_role is_admin) in
    let ms = s.members g in
    rebuilt-IsKept g o h.owned.conversation _ s _ h.owned.found refl h.owned.id h.owned.owner_id
      (rw (==_self g)
        (adjusted-IsOwnedBy o v f ms h.owned.owned ne (λ m. refl) (λ m p. plain_role is_admin)))
      (rw (==_self g) (h.counted ∙ sym (count_active-adjust_same v f ms (λ m. refl))))
      (rw (==_self g) (adjusted-is_settled v f ms h.settled (λ m e. e)))

-- `setAdmin` keeps the owner of a group, and its count that of the active members.
pub set_admin-IsKept :
    (fresh now g o u v : ℕ) (name : ℕ → Option ℕ) (is_admin : Bool) (s : Store)
    → IsKept g o s
    → IsKept g o (set_admin fresh now name g u v is_admin s).1
unfolding set_admin
set_admin-IsKept fresh now g o u v name is_admin s h =
    let c = h.owned.conversation in
    let found = h.owned.found in
    let row = lookup u (s.members g) in
    let target = lookup v (s.members g) in
    elim (Option-cases (set_admin_guard c row target)) [
      | inr (e, fails) ↦
          let thrown : set_admin fresh now name g u v is_admin s ≡ (throw e, s) = ground arith in
          rw thrown h
      | inl passes ↦
          let other = set_admin_guard-passes c row target passes in
          let ne = not_owner_ne g o v s h other in
          let text = admin_text is_admin (name u) (name v) in
          let t = change_admin g v is_admin s in
          let done : set_admin fresh now name g u v is_admin s
              ≡ (ok tt, post_system_message fresh now g u text t) =
            ground arith in
          rw done (posted-IsKept fresh now g o u text t (change_admin-IsKept g o v is_admin s h ne))
    ]
