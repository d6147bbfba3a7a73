-- ===== src/Chat/Group/Departing.antt =====
-- src/modules/chat/usecase/leave-group.ts: the owner and the count of a group after it.
use chat_be.Base.{
  ℕ, ◌≡◌, refl, sym, ap, ◌∙◌, ◌≢◌, inl, inr, true, false, Option, none, some, arith, ==_self,
  Bool-cases, Option-cases, lookup, adjust, lookup-adjust_ne, lookup-adjust_cases,
}
use chat_be.Chat.Model.{
  ok, throw, ConversationMemberRole, ConversationMember, Store, ChatError, member_left, owner_left,
}
use chat_be.Chat.Settings.{is_active, is_active_member, owns}
use chat_be.Chat.Group.Ownership.{set_role, post_system_message, is_owner_of}
use chat_be.Chat.Group.Keeping.{active_row}
use chat_be.Chat.Group.Transfer.{followed-IsOwnedBy}
use chat_be.Chat.Group.Counted.{
  bit, count_active, count_active-insert, count_active-adjust, count_active-adjust_same, is_settled,
  IsKept, rebuilt-IsKept, posted-IsKept,
}
use chat_be.Chat.Group.Handing.{adjusted-is_settled}
use chat_be.Chat.Group.Rosters.{other_row, not_owner_ne}
use chat_be.Chat.Group.Owned.{owner_of}
use chat_be.Chat.Group.Rewriting.{row_written-IsKept}
use chat_be.Chat.Group.Leaving.{
  named_owner, next_owner, one_less, depart, depart_as_owner, leave_as_owner, leave_guard,
  leave_group,
}

depart-IsKept :
    (now g o u : ℕ) (s : Store)
    → IsKept g o s
    → u ≢ o
    → is_active_member (lookup u (s.members g)) ≡ true
    → IsKept g o (depart now g u s)
unfolding depart
depart-IsKept now g o u s h ne there =
    let (m, at_u, active) = active_row (lookup u (s.members g)) there in
    let (user, plain, fit) = other_row g o u m s h ne at_u in
    let n : ConversationMember = record m { left_at = some now } in
    let after = count_active-insert u n (s.members g) in
    let counted = h.counted in
    let one : bit (is_active_member (lookup u (s.members g))) ≡ 1 = rw there refl in
    let none_left : bit (is_active n) ≡ 0 = refl in
    row_written-IsKept g o u n _ s _ h refl (rw (==_self g, at_u) refl) refl refl ne user plain
      (ground arith) (omega arith)

depart_as_owner-IsKept :
    (now g u v : ℕ) (n : Option ℕ) (m : ConversationMember) (s : Store)
    → IsKept g u s
    → lookup v (s.members g) ≡ some m
    → is_active m ≡ true
    → v ≢ u
    → IsKept g v (depart_as_owner now g u n m s)
unfolding depart_as_owner
depart_as_owner-IsKept now g u v n m s h at_v active ne =
    let ms = s.members g in
    let user = (h.owned.owned.rows v m at_v).0 in
    let crown = set_role ConversationMemberRole.owner in
    let part : ConversationMember → ConversationMember =
      λ o. record o { left_at = some now; role = ConversationMemberRole.admin } in
    let middle = adjust v crown ms in
    let (p, at_u, here, owns) = h.owned.owned.present in
    let stays = lookup-adjust_ne u v crown ms (λ e. ne (sym e)) ∙ at_u in
    let one : bit (is_active p) ≡ 1 = rw here refl in
    let none_left : bit (is_active (part p)) ≡ 0 = refl in
    let first = count_active-adjust u part p middle stays in
    let second = count_active-adjust_same v crown ms (λ o. refl) in
    let counted = h.counted in
    let fewer : one_less h.owned.conversation.members_count ≡ count_active (adjust u part middle) =
      omega arith in
    let let_in : (o : ConversationMember) (w : ℕ) → lookup w middle ≡ some o → is_settled o ≡ true =
      λ o w e. adjusted-is_settled v crown ms h.settled (λ q f. f) w o e in
    rebuilt-IsKept g v h.owned.conversation _ s _ h.owned.found refl h.owned.id (ap some user)
      (rw (==_self g, user) (followed-IsOwnedBy now u v m ms h.owned.owned at_v active ne))
      (rw (==_self g, user) fewer)
      (λ w q e.
        (let found = rw (==_self g, user) at e in
          elim (lookup-adjust_cases w u part q middle found) [
            | inr (other, old) ↦ let_in q w old
            | inl (wu, o, at_w, same) ↦
                let is_p : some p ≡ some o = sym stays ∙ at_w in
                let active_o : is_active o ≡ true = ground arith in rw (sym same) (ground arith)
          ]))

-- The owner leaves: whom the code lets follow.
named_owner-throws :
    (v : Option ConversationMember)
    → is_active_member v ≡ false
    → named_owner v ≡ throw ChatError.invalid_new_owner
named_owner-throws none e = refl
named_owner-throws (some m) e = ground arith

-- `leaveGroup` without `autoTransferOwner`, where a member who is named as the new owner is not the
-- one who leaves, keeps a group owned, and its count that of the active members.
pub leave_group-IsKept :
    (fresh now g o u : ℕ) (new_owner : Option ℕ) (name : ℕ → Option ℕ) (s : Store)
    → IsKept g o s
    → new_owner ≢ some u
    → (w : ℕ) × IsKept g w (leave_group fresh now name g u new_owner false s).1
unfolding leave_group next_owner leave_as_owner
leave_group-IsKept fresh now g o u new_owner name s h ne =
    let c = h.owned.conversation in
    let found = h.owned.found in
    let member = lookup u (s.members g) in
    elim (Option-cases (leave_guard c member)) [
      | inr (e, fails) ↦
          let thrown : leave_group fresh now name g u new_owner false s ≡ (throw e, s) =
            ground arith in
          (o, rw thrown h)
      | inl passes ↦ elim (Bool-cases (is_owner_of member c)) [
        | inr plain ↦
            let other = not_owner_ne g o u s h plain in
            let there : is_active_member member ≡ true = ground arith in
            let text = member_left (name u) in
            let done : leave_group fresh now name g u new_owner false s
                ≡ (ok tt, post_system_message fresh now g u text (depart now g u s)) =
              ground arith in
            (
              o,
              rw done
                  (posted-IsKept fresh now g o u text _ (depart-IsKept now g o u s h other there)),
            )
        | inl owns ↦
            let mine = owner_of g o u c s h.owned found owns in
            elim (Option-cases new_owner) [
              | inl nobody ↦
                  let thrown : leave_group fresh now name g u new_owner false s
                      ≡ (throw ChatError.new_owner_required, s) =
                    rw nobody (ground arith) in
                  (o, rw thrown h)
              | inr (v, named) ↦ elim (Bool-cases (is_active_member (lookup v (s.members g)))) [
                | inr absent ↦
                    let refused = named_owner-throws (lookup v (s.members g)) absent in
                    let thrown : leave_group fresh now name g u new_owner false s
                        ≡ (throw ChatError.invalid_new_owner, s) =
                      rw named (ground arith) in
                    (o, rw thrown h)
                | inl there ↦
                    let differ : v ≢ u = λ e. ne (named ∙ ap some e) in
                    let (m, at_v, fit) = active_row (lookup v (s.members g)) there in
                    let t = depart_as_owner now g u (some v) m s in
                    let text = owner_left (name u) (name m.user_id) in
                    let done : leave_group fresh now name g u new_owner false s
                        ≡ (ok tt, post_system_message fresh now g u text t) =
                      rw named (ground arith) in
                    let parted =
                      depart_as_owner-IsKept now g u v (some v) m s (rw (sym mine) at h) at_v fit
                        differ in
                    (v, rw done (posted-IsKept fresh now g v u text t parted))
              ]
            ]
      ]
    ]
