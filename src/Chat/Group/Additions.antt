-- ===== src/Chat/Group/Additions.antt =====
-- src/modules/chat/usecase/add-members-to-group.ts: the owner, the count and the size of a group
-- after it.
use chat_be.Base.{
  ℕ, ◌+◌, ◌≡◌, refl, inl, inr, Bool, true, false, not, ◌&&◌, Option, none, some, List, [], ◌∷◌,
  ◌++◌, map, arith, ltb, ◌==◌, if◌then◌else◌, eq_of_==, ==_self, Bool-cases, Option-cases, length,
  includes, unique, lookup,
}
use chat_be.Chat.Model.{
  throw, ConversationMemberStatus, ConversationMember, Store, invalid_members, members_added,
}
use chat_be.Chat.Access.{Directory, add_error, validate_add_group_members}
use chat_be.Chat.Settings.{normalize_group_settings, is_active_member}
use chat_be.Chat.Poll.Voters.{is_distinct, unique-is_distinct}
use chat_be.Chat.Group.Ownership.{update_members, update_conversation}
use chat_be.Chat.Group.Writing.{write_members-IsFit, IsIdle}
use chat_be.Chat.Group.Counted.{IsKept, rebuilt-IsKept, posted-IsKept}
use chat_be.Chat.Group.Roster.{is_manager}
use chat_be.Chat.Group.Adding.{
  add_guard, first_id, is_present, blocked_error, loop_error, default_status, to_insert, to_update,
  write_members, added_count, write_added, add_members_to_group,
}
use chat_be.Social.Reach.{empty}

first_id-none :
    (p : ℕ → Bool) (ids : List ℕ) (u : ℕ)
    → first_id p ids ≡ none
    → includes u ids ≡ true
    → p u ≡ false
first_id-none p [] u h e = absurd (ground arith)
first_id-none p (w ∷ ids) u h e = elim (Bool-cases (u == w)) [
  | inl same ↦ (let uw = eq_of_== u w same in rw uw (ground arith))
  | inr other ↦ first_id-none p ids u (ground arith) (ground arith)
]

absent_or_left : (o : Option ConversationMember) → is_present o ≡ false → is_active_member o ≡ false
absent_or_left none e = refl
absent_or_left (some m) e = ground arith

blocked_error-none :
    (blocked present : Option ℕ)
    → blocked_error blocked present ≡ none
    → (blocked ≡ none) × (present ≡ none)
blocked_error-none none none e = (refl, refl)
blocked_error-none none (some u) e = absurd (ground arith)
blocked_error-none (some u) present e = absurd (ground arith)

pub loop_error-IsIdle :
    (g : ℕ) (ids : List ℕ) (s : Store) → loop_error g ids s ≡ none → IsIdle ids (s.members g)
loop_error-IsIdle g ids s passes w there =
    let (free, none_present) = blocked_error-none _ _ passes in
    absent_or_left (lookup w (s.members g)) (first_id-none _ ids w none_present there)

-- The writes, when no user of the list has a row without `leftAt`.
write_added-IsKept :
    (fresh : ℕ) (row_id : ℕ → ℕ) (now g v requester : ℕ) (name : ℕ → Option ℕ) (can_view : Bool)
    (status : ConversationMemberStatus) (ids : List ℕ) (s : Store)
    → IsKept g v s
    → is_distinct ids ≡ true
    → IsIdle ids (s.members g)
    → IsKept g v (write_added fresh row_id now name g requester can_view status ids s).1
unfolding write_added
write_added-IsKept fresh row_id now g v requester name can_view status ids s h distinct idle =
    let ms = s.members g in
    let count = added_count status ms ids in
    let c = h.owned.conversation in
    let counted = h.counted in
    let written = update_members g (write_members row_id now can_view status ids) s in
    let (fit, total) =
      write_members-IsFit v row_id now can_view status ids ms
        (record { owned = h.owned.owned; settled = h.settled }) distinct idle in
    let text = members_added (name requester) (map name (to_insert ms ids ++ to_update ms ids)) in
    let t =
      if ltb 0 count
      then update_conversation g (λ c. record c { members_count = c.members_count + count }) written
      else written in
    let kept : IsKept g v t = elim (Bool-cases (ltb 0 count)) [
      | inl some_added ↦ rw some_added (
          rebuilt-IsKept g v c (λ c. record c { members_count = c.members_count + count }) s _
            h.owned.found refl h.owned.id h.owned.owner_id (rw (==_self g) fit.owned)
            (rw (==_self g) (omega arith)) (rw (==_self g) fit.settled))
      | inr none_added ↦
          let nobody : count ≡ 0 = ground arith in
          rw none_added (record {
            owned = record {
              conversation = c;
              found = h.owned.found;
              id = h.owned.id;
              owner_id = h.owned.owner_id;
              owned = rw (==_self g) fit.owned;
            };
            counted = rw (==_self g) (omega arith);
            settled = rw (==_self g) fit.settled;
          })
    ] in
    elim (Bool-cases (length (to_insert ms ids ++ to_update ms ids) == 0)) [
      | inl empty ↦ rw empty kept
      | inr more ↦ rw more (posted-IsKept fresh now g v requester text t kept)
    ]

-- `addMembersToGroup` keeps the owner of a group, and its count that of the active members.
pub add_members_to_group-IsKept :
    (fresh : ℕ) (row_id : ℕ → ℕ) (now g v requester : ℕ) (name : ℕ → Option ℕ) (dir : Directory)
    (ids : List ℕ) (s : Store)
    → IsKept g v s
    → IsKept g v (add_members_to_group fresh row_id now name dir g requester ids s).1
unfolding add_members_to_group validate_add_group_members
add_members_to_group-IsKept fresh row_id now g v requester name dir ids s h =
    let c = h.owned.conversation in
    let found = h.owned.found in
    let row = lookup requester (s.members g) in
    let settings = normalize_group_settings c.settings in
    let status = default_status (settings.require_approval && not (is_manager row c)) in
    let run = add_members_to_group fresh row_id now name dir g requester ids s in
    elim (Option-cases (add_guard c row)) [
      | inr (e, fails) ↦ (let thrown : run ≡ (throw e, s) = ground arith in rw thrown h)
      | inl passes ↦ elim (Option-cases (add_error dir requester ids c.members_count)) [
        | inr (e, fails) ↦
            let thrown : run ≡ (throw (invalid_members e), s) = ground arith in rw thrown h
        | inl valid_ids ↦ elim (Option-cases (loop_error g (unique ids) s)) [
          | inr (e, fails) ↦ (let thrown : run ≡ (throw e, s) = ground arith in rw thrown h)
          | inl free ↦
              let done : run
                  ≡ write_added fresh row_id now name g requester
                      settings.new_member_can_view_history status (unique ids) s =
                ground arith in
              rw done (
                write_added-IsKept fresh row_id now g v requester name
                  settings.new_member_can_view_history status (unique ids) s h
                  (unique-is_distinct ids) (loop_error-IsIdle g (unique ids) s free))
        ]
      ]
    ]
