-- ===== src/Chat/Group/Size.antt =====
-- src/modules/chat/usecase/add-members-to-group.ts: how large a group gets.
use chat_be.Base.{
  ℕ, ◌+◌, ◌≤◌, ◌≡◌, refl, ◌∙◌, inl, inr, Bool, true, not, ◌&&◌, Option, none, List, [], ◌∷◌, ◌++◌,
  arith, ltb, ◌==◌, ==_self, Bool-cases, Option-cases, is_some, length, filter, length-filter_le,
  unique, Dict, lookup,
}
use chat_be.Chat.Model.{
  ok, throw, ConversationMemberStatus, ConversationMember, Store, invalid_members,
}
use chat_be.Chat.Access.{Directory, add_error, validate_add_group_members}
use chat_be.Chat.Settings.{normalize_group_settings, is_active_status}
use chat_be.Chat.Poll.Voters.{is_distinct, unique-is_distinct}
use chat_be.Chat.Group.Ownership.{touch, post_system_message}
use chat_be.Chat.Group.Writing.{IsIdle, write_members-IsFit}
use chat_be.Chat.Group.Effects.{threw_ne}
use chat_be.Chat.Group.Additions.{loop_error-IsIdle}
use chat_be.Chat.Group.Counted.{count_active, count_active-map_values, touch-is_active, IsKept}
use chat_be.Chat.Group.Roster.{is_manager}
use chat_be.Chat.Group.Adding.{
  add_guard, loop_error, default_status, to_insert, to_update, write_members, added_count,
  write_added, add_members_to_group,
}
use chat_be.Social.Reach.{empty}

split_length :
    {A : Type 0} (p : A → Bool) (xs : List A)
    → length (filter (λ x. not (p x)) xs) + length (filter p xs) ≡ length xs
split_length p [] = refl
split_length p (x ∷ xs) = elim (Bool-cases (p x)) [
  | inl fits ↦ rw fits (omega (arith, split_length p xs))
  | inr fails ↦ rw fails (omega (arith, split_length p xs))
]

length-unique_le : (ids : List ℕ) → length (unique ids) ≤ length ids
length-unique_le [] = omega arith
length-unique_le (x ∷ xs) =
    let shorter = length-filter_le (λ y. not (y == x)) (unique xs) in
    let rest = length-unique_le xs in omega arith

added_count_le :
    (status : ConversationMemberStatus) (ms : Dict ConversationMember) (ids : List ℕ)
    → added_count status ms ids ≤ length ids
added_count_le status ms ids =
    let all_ids = split_length (λ u. is_some (lookup u ms)) ids in
    elim (Bool-cases (is_active_status status)) [
      | inl active ↦ rw active (omega arith)
      | inr waits ↦ rw waits (omega arith)
    ]

add_error-size :
    (dir : Directory) (requester : ℕ) (ids : List ℕ) (count : ℕ)
    → add_error dir requester ids count ≡ none
    → count + length ids ≤ 50
unfolding add_error
add_error-size dir requester ids count e = ground arith

written_count :
    (fresh : ℕ) (row_id : ℕ → ℕ) (now g v requester : ℕ) (name : ℕ → Option ℕ) (can_view : Bool)
    (status : ConversationMemberStatus) (ids : List ℕ) (s : Store)
    → IsKept g v s
    → is_distinct ids ≡ true
    → IsIdle ids (s.members g)
    → count_active
        ((write_added fresh row_id now name g requester can_view status ids s).1.members g)
      ≡ added_count status (s.members g) ids + count_active (s.members g)
unfolding write_added post_system_message
written_count fresh row_id now g v requester name can_view status ids s h distinct idle =
    let ms = s.members g in
    let count = added_count status ms ids in
    let (fit, total) =
      write_members-IsFit v row_id now can_view status ids ms
        (record { owned = h.owned.owned; settled = h.settled }) distinct idle in
    let touched =
      count_active-map_values (touch now) (write_members row_id now can_view status ids ms)
        (touch-is_active now) in
    elim (Bool-cases (length (to_insert ms ids ++ to_update ms ids) == 0)) [
      | inl empty ↦ elim (Bool-cases (ltb 0 count)) [
        | inl some_added ↦ rw (empty, some_added, ==_self g) total
        | inr none_added ↦ rw (empty, none_added, ==_self g) total
      ]
      | inr more ↦ elim (Bool-cases (ltb 0 count)) [
        | inl some_added ↦ rw (more, some_added, ==_self g) (touched ∙ total)
        | inr none_added ↦ rw (more, none_added, ==_self g) (touched ∙ total)
      ]
    ]

-- After `addMembersToGroup` has succeeded, in a group with an owner and a count that is that of its
-- active members, at most 50 members are active.
pub add_members_to_group-size :
    (fresh : ℕ) (row_id : ℕ → ℕ) (now g v requester : ℕ) (name : ℕ → Option ℕ) (dir : Directory)
    (ids added : List ℕ) (s : Store)
    → IsKept g v s
    → (add_members_to_group fresh row_id now name dir g requester ids s).0 ≡ ok added
    → count_active ((add_members_to_group fresh row_id now name dir g requester ids s).1.members g)
      ≤ 50
unfolding add_members_to_group validate_add_group_members
add_members_to_group-size fresh row_id now g v requester name dir ids added s h succeeds =
    let c = h.owned.conversation in
    let found = h.owned.found in
    let counted = h.counted in
    let row = lookup requester (s.members g) in
    let settings = normalize_group_settings c.settings in
    let status = default_status (settings.require_approval && not (is_manager row c)) in
    let run = add_members_to_group fresh row_id now name dir g requester ids s in
    elim (Option-cases (add_guard c row)) [
      | inr (e, fails) ↦
          (let thrown : run ≡ (throw e, s) = ground arith in
            absurd (threw_ne e added _ s thrown succeeds))
      | inl passes ↦ elim (Option-cases (add_error dir requester ids c.members_count)) [
        | inr (e, fails) ↦
            let thrown : run ≡ (throw (invalid_members e), s) = ground arith in
            absurd (threw_ne _ added _ s thrown succeeds)
        | inl valid_ids ↦ elim (Option-cases (loop_error g (unique ids) s)) [
          | inr (e, fails) ↦
              (let thrown : run ≡ (throw e, s) = ground arith in
                absurd (threw_ne e added _ s thrown succeeds))
          | inl free ↦
              let done : run
                  ≡ write_added fresh row_id now name g requester
                      settings.new_member_can_view_history status (unique ids) s =
                ground arith in
              let total =
                written_count fresh row_id now g v requester name
                  settings.new_member_can_view_history status (unique ids) s h
                  (unique-is_distinct ids) (loop_error-IsIdle g (unique ids) s free) in
              let size = add_error-size dir requester ids c.members_count valid_ids in
              let most = added_count_le status (s.members g) (unique ids) in
              let fewer = length-unique_le ids in rw (done, total) (omega arith)
        ]
      ]
    ]
