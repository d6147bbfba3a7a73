-- ===== src/Chat/Group/Founded.antt =====
-- src/modules/chat/usecase/create-group.ts: the group that it makes.
use chat_be.Base.{
  ℕ, ◌≡◌, refl, sym, inl, inr, false, none, List, [], ◌∷◌, arith, ◌==◌, eq_of_==, ==_self,
  Bool-cases, includes, unique, ◌+◌, ◌⊎◌, true, Option, Option-cases, length, Dict,
  lookup-insert_self,
}
use chat_be.Chat.Group.Writing.{IsFit, IsIdle, insert_all-IsFit, new_row-IsPlainRow}
use chat_be.Chat.Access.{Directory, create_error, validate_create_group_members}
use chat_be.Chat.Group.Founding.{founder_row, founding_rows, found_group, create_group}
use chat_be.Chat.Model.{
  throw, ok, ConversationMemberStatus, ConversationMember, Store, ChatError, invalid_members,
}
use chat_be.Chat.Poll.Voters.{is_distinct, unique-is_distinct}
use chat_be.Chat.Group.Counted.{count_active, IsKept}
use chat_be.Chat.Group.Joining.{new_row}

create_error-apart :
    (dir : Directory) (creator : ℕ) (ids : List ℕ)
    → create_error dir creator ids ≡ none
    → includes creator (unique ids) ≡ false
unfolding create_error
create_error-apart dir creator ids e = ground arith

founder-IsFit :
    (row_id now creator : ℕ) → IsFit creator ((creator, founder_row row_id now creator) ∷ [])
founder-IsFit row_id now creator = record {
  owned = record {
    present = (founder_row row_id now creator, rw (==_self creator) refl, refl, refl);
    rows = λ w m e. elim (Bool-cases (w == creator)) [
      | inl same ↦ (let wc = eq_of_== w creator same in (ground arith, λ r. wc))
      | inr other ↦ absurd (ground arith)
    ];
  };
  settled = λ w m e. ground arith;
}

-- The rows of a new group: its founder owns it, and all are active.
founding_rows-IsFit :
    (row_id : ℕ → ℕ) (now creator : ℕ) (ids : List ℕ)
    → is_distinct ids ≡ true
    → includes creator ids ≡ false
    → IsFit creator (founding_rows row_id now creator ids)
      × (length ids + 1 ≡ count_active (founding_rows row_id now creator ids))
founding_rows-IsFit row_id now creator ids distinct apart_from =
    let first : Dict ConversationMember =
      (creator, founder_row (row_id creator) now creator) ∷ [] in
    let idle : IsIdle ids first = λ w there.
      (let other : w == creator ≡ false = elim (Bool-cases (w == creator)) [
        | inr ne ↦ ne
        | inl same ↦
            let wc = eq_of_== w creator same in let here = rw wc at there in absurd (ground arith)
      ] in
        rw other refl) in
    let (fit, total) =
      insert_all-IsFit creator true (λ u. new_row (row_id u) u ConversationMemberStatus.active now)
        ids first (founder-IsFit (row_id creator) now creator) idle distinct
        (λ u. new_row-IsPlainRow (row_id u) u ConversationMemberStatus.active now) in
    (fit, sym total)

-- `createGroup` throws and changes nothing, or succeeds and makes a group that its creator owns, with
-- a count that is that of its active members.
pub create_group-IsKept :
    (fresh : ℕ) (row_id : ℕ → ℕ) (now : ℕ) (name : ℕ → Option ℕ) (dir : Directory) (g creator : ℕ)
    (group_name avatar_url : Option ℕ) (ids : List ℕ) (s : Store)
    → ((e : ChatError) × (create_group fresh row_id now name dir g creator group_name avatar_url ids
            s
          ≡ (throw e, s)))
      ⊎ (((create_group fresh row_id now name dir g creator group_name avatar_url ids s).0 ≡ ok tt)
          × IsKept g creator
              (create_group fresh row_id now name dir g creator group_name avatar_url ids s).1)
unfolding create_group validate_create_group_members found_group
create_group-IsKept fresh row_id now name dir g creator group_name avatar_url ids s =
    elim (Option-cases (create_error dir creator ids)) [
      | inr (e, fails) ↦ inl (invalid_members e, ground arith)
      | inl passes ↦
          let apart_from = create_error-apart dir creator ids passes in
          let (fit, total) =
            founding_rows-IsFit row_id now creator (unique ids) (unique-is_distinct ids)
              apart_from in
          let t =
            found_group fresh row_id now name g creator group_name avatar_url (unique ids) s in
          let done : create_group fresh row_id now name dir g creator group_name avatar_url ids s
              ≡ (ok tt, t) =
            ground arith in
          let kept : IsKept g creator t = record {
            owned = record {
              conversation = _;
              found = lookup-insert_self g _ s.conversations;
              id = refl;
              owner_id = refl;
              owned = rw (==_self g) fit.owned;
            };
            counted = rw (==_self g) total;
            settled = rw (==_self g) fit.settled;
          } in
          inr (rw done refl, rw done kept)
    ]
