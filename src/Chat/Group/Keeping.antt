-- ===== src/Chat/Group/Keeping.antt =====
-- src/modules/chat/usecase: transfer-owner.ts, set-admin.ts and leave-group.ts keep the group owned.
use chat_be.Base.{
  ℕ, ◌≡◌, ◌⊎◌, inl, inr, Option, arith, Option-cases, lookup, refl, true, none, some, ==_self,
  Bool-cases, ◌≢◌, Bool, false, sym,
}
use chat_be.Chat.Model.{
  owner_transferred, Store, ChatError, ok, throw, Conversation, ConversationMember,
}
use chat_be.Chat.Group.Ownership.{
  transfer_guard, transfer_owner, is_group, post_system_message, is_owner_of, hand_over, set_role,
  set_admin_guard, admin_role, admin_text, change_admin, set_admin,
}
use chat_be.Chat.Group.Transfer.{IsOwned, handed-IsOwnedBy, adjusted-IsOwnedBy}
use chat_be.Chat.Settings.{is_active, is_active_member, owns, is_owner_role, is_owner_member}
use chat_be.Chat.Group.Owned.{updated-IsOwned, posted-IsOwned, owner_of}

pub transfer_guard-passes :
    (c : Conversation) (requester target : Option ConversationMember)
    → transfer_guard c requester target ≡ none
    → (is_owner_of requester c ≡ true) × (is_active_member target ≡ true)
unfolding transfer_guard
transfer_guard-passes c none target e =
    absurd
      (elim (Bool-cases (is_group c.type)) [ inl group ↦ ground arith | inr other ↦ ground arith ])
transfer_guard-passes c (some m) target e = (ground arith, ground arith)

pub plain_role : (is_admin : Bool) → is_owner_role (admin_role is_admin) ≡ false
plain_role true = refl
plain_role false = refl

pub active_row :
    (o : Option ConversationMember)
    → is_active_member o ≡ true
    → (m : ConversationMember) × (o ≡ some m) × (is_active m ≡ true)
active_row none e = absurd (ground arith)
active_row (some m) e = (m, refl, e)

hand_over-IsOwned :
    (g u v : ℕ) (m : ConversationMember) (s : Store)
    → IsOwned g u s
    → lookup v (s.members g) ≡ some m
    → is_active m ≡ true
    → IsOwned g v (hand_over g u v s)
unfolding hand_over
hand_over-IsOwned g u v m s h at_v active =
    updated-IsOwned g v h.conversation _ s _ h.found h.id refl refl
      (rw (==_self g) (handed-IsOwnedBy u v m (s.members g) h.owned at_v active))

-- `transferOwner` in a group that `o` owns throws and changes nothing, or its requester is `o`, it
-- succeeds, and the named user owns the group.
pub transfer_owner-IsOwned :
    (fresh now g o u v : ℕ) (name : ℕ → Option ℕ) (s : Store)
    → IsOwned g o s
    → ((e : ChatError) × (transfer_owner fresh now name g u v s ≡ (throw e, s)))
      ⊎ ((u ≡ o)
          × ((transfer_owner fresh now name g u v s).0 ≡ ok tt)
          × IsOwned g v (transfer_owner fresh now name g u v s).1)
unfolding transfer_owner
transfer_owner-IsOwned fresh now g o u v name s h =
    let c = h.conversation in
    let found = h.found in
    let guard = transfer_guard c (lookup u (s.members g)) (lookup v (s.members g)) in
    elim (Option-cases guard) [
      | inr (e, fails) ↦ inl (e, ground arith)
      | inl passes ↦
          let (owns, active) =
            transfer_guard-passes c (lookup u (s.members g)) (lookup v (s.members g)) passes in
          let mine = owner_of g o u c s h found owns in
          let (m, at_v, fit) = active_row (lookup v (s.members g)) active in
          let text = owner_transferred (name u) (name v) in
          let moved = hand_over-IsOwned g o v m s h at_v fit in
          let done : transfer_owner fresh now name g u v s
              ≡ (ok tt, post_system_message fresh now g u text (hand_over g u v s)) =
            ground arith in
          inr (
            mine,
            rw done refl,
            rw done
                (posted-IsOwned fresh now g v u text (hand_over g u v s) (rw (sym mine) at moved)),
          )
    ]

pub set_admin_guard-passes :
    (c : Conversation) (requester target : Option ConversationMember)
    → set_admin_guard c requester target ≡ none
    → is_owner_of target c ≡ false
unfolding set_admin_guard
set_admin_guard-passes c requester target e = ground arith

change_admin-IsOwned :
    (g o v : ℕ) (is_admin : Bool) (s : Store)
    → IsOwned g o s
    → v ≢ o
    → IsOwned g o (change_admin g v is_admin s)
unfolding change_admin
change_admin-IsOwned g o v is_admin s h ne =
    updated-IsOwned g o h.conversation _ s _ h.found h.id h.owner_id refl (
      rw (==_self g) (
        adjusted-IsOwnedBy o v (set_role (admin_role is_admin)) (s.members g) h.owned ne (λ m. refl)
          (λ m p. plain_role is_admin)))

-- The owner passes the test for the owner.
pub owner_passes :
    (g o : ℕ) (s : Store) (h : IsOwned g o s)
    → is_owner_of (lookup o (s.members g)) h.conversation ≡ true
unfolding is_owner_member
owner_passes g o s h = let (m, at_o, active, owns) = h.owned.present in ground arith

-- `setAdmin` in a group that `o` owns throws and changes nothing, or succeeds on another member than
-- `o`, and `o` still owns the group.
pub set_admin-IsOwned :
    (fresh now g o u v : ℕ) (name : ℕ → Option ℕ) (is_admin : Bool) (s : Store)
    → IsOwned g o s
    → ((e : ChatError) × (set_admin fresh now name g u v is_admin s ≡ (throw e, s)))
      ⊎ ((v ≢ o)
          × ((set_admin fresh now name g u v is_admin s).0 ≡ ok tt)
          × IsOwned g o (set_admin fresh now name g u v is_admin s).1)
unfolding set_admin
set_admin-IsOwned fresh now g o u v name is_admin s h =
    let c = h.conversation in
    let found = h.found in
    let guard = set_admin_guard c (lookup u (s.members g)) (lookup v (s.members g)) in
    elim (Option-cases guard) [
      | inr (e, fails) ↦ inl (e, ground arith)
      | inl passes ↦
          let other =
            set_admin_guard-passes c (lookup u (s.members g)) (lookup v (s.members g)) passes in
          let owner = owner_passes g o s h in
          let ne : v ≢ o = λ e. (let known = rw e at other in absurd (ground arith)) in
          let text = admin_text is_admin (name u) (name v) in
          let t = change_admin g v is_admin s in
          let done : set_admin fresh now name g u v is_admin s
              ≡ (ok tt, post_system_message fresh now g u text t) =
            ground arith in
          inr (
            ne,
            rw done refl,
            rw done (
                posted-IsOwned fresh now g o u text t (change_admin-IsOwned g o v is_admin s h ne)),
          )
    ]
