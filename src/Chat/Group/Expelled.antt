-- ===== src/Chat/Group/Expelled.antt =====
-- src/modules/chat/usecase/remove-member-from-group.ts and group-block.ts: the rows of a group and its
-- blocks after the writes on one who is put out.
use chat_be.Base.{
  ℕ, ◌≡◌, refl, ◌∙◌, inl, inr, Bool, true, not, ◌&&◌, ◌||◌, Option, none, some, arith, ◌==◌,
  if◌then◌else◌, is_some, eq_of_==, ==_self, ne_of_==, Bool-cases, Option-cases, Dict, lookup,
  map_values, lookup-map_values, lookup-insert_self, lookup-insert_ne, lookup-adjust_self,
  lookup-adjust_ne, false,
}
use chat_be.Chat.Model.{MessageText, ConversationMember, Store}
use chat_be.Chat.Settings.{is_active_member}
use chat_be.Chat.Group.Ownership.{touch, post_system_message}
use chat_be.Chat.Group.Keeping.{active_row}
use chat_be.Chat.Group.Counted.{touch-is_active}
use chat_be.Chat.Group.Roster.{expel, is_user_blocked, insert_block, block_removed}

pub touched_active :
    (now w : ℕ) (ms : Dict ConversationMember)
    → is_active_member (lookup w (map_values (touch now) ms)) ≡ is_active_member (lookup w ms)
touched_active now w ms = elim (Option-cases (lookup w ms)) [
  | inl absent ↦ rw (lookup-map_values (touch now) w ms, absent) refl
  | inr (m, found) ↦ rw (lookup-map_values (touch now) w ms, found) (touch-is_active now m)
]

pub posted_active :
    (fresh now g sender w : ℕ) (text : MessageText) (s : Store)
    → is_active_member (lookup w ((post_system_message fresh now g sender text s).members g))
      ≡ is_active_member (lookup w (s.members g))
unfolding post_system_message
posted_active fresh now g sender w text s = rw (==_self g) (touched_active now w (s.members g))

-- The one who is put out is no active member any more; the others are what they were.
pub expelled_active :
    (now g u w : ℕ) (was_admin : Bool) (s : Store)
    → is_active_member (lookup u (s.members g)) ≡ true
    → is_active_member (lookup w ((expel now g u was_admin s).members g))
      ≡ (not (w == u) && is_active_member (lookup w (s.members g)))
unfolding expel
expelled_active now g u w was_admin s there =
    let (m, at_u, active) = active_row (lookup u (s.members g)) there in
    let part : ConversationMember → ConversationMember = λ m. record m { left_at = some now } in
    elim (Bool-cases (w == u)) [
      | inl same ↦
          let wu = eq_of_== w u same in
          rw (==_self g, same, wu, lookup-adjust_self u part m (s.members g) at_u) refl
      | inr other ↦
          rw (==_self g, other, lookup-adjust_ne w u part (s.members g) (ne_of_== w u other)) refl
    ]

pub inserted_block :
    (now g u by w : ℕ) (s : Store)
    → is_user_blocked g w (insert_block now g u by s) ≡ (w == u || is_user_blocked g w s)
unfolding insert_block
inserted_block now g u by w s = elim (Bool-cases (w == u)) [
  | inl same ↦
      let wu = eq_of_== w u same in
      rw (==_self g, same, wu, lookup-insert_self u _ (s.group_blocks g)) refl
  | inr other ↦
      rw (==_self g, other, lookup-insert_ne w u _ (s.group_blocks g) (ne_of_== w u other)) refl
]

pub block_removed_blocked :
    (block : Bool) (now g u by w : ℕ) (s : Store)
    → is_user_blocked g w (block_removed block now g u by s)
      ≡ ((block && w == u) || is_user_blocked g w s)
unfolding block_removed
block_removed_blocked block now g u by w s =
    let new = inserted_block now g u by w s in
    elim (Bool-cases (block && not (is_user_blocked g u s))) [
      | inl wanted ↦ rw wanted (new ∙ ground arith)
      | inr plain ↦ rw plain (elim (Bool-cases (w == u)) [
        | inl same ↦ (let wu = eq_of_== w u same in rw wu (ground arith))
        | inr other ↦ ground arith
      ])
    ]

-- A row without the time of its last activity, and the row of one who has left.
abbrev pub without_activity : Option ConversationMember → Option ConversationMember
without_activity none = none
without_activity (some m) = some (record m { last_activity_at = none })

abbrev pub departed : ℕ → Option ConversationMember → Option ConversationMember
departed now none = none
departed now (some m) = some (record m { left_at = some now })

touch-row :
    (now : ℕ) (m : ConversationMember)
    → without_activity (some (touch now m)) ≡ without_activity (some m)
touch-row now m = elim (Bool-cases (is_some m.left_at)) [
  | inl left ↦ rw left refl
  | inr here ↦ rw here refl
]

pub posted_row :
    (fresh now g sender w : ℕ) (text : MessageText) (s : Store)
    → without_activity (lookup w ((post_system_message fresh now g sender text s).members g))
      ≡ without_activity (lookup w (s.members g))
unfolding post_system_message
posted_row fresh now g sender w text s = elim (Option-cases (lookup w (s.members g))) [
  | inl absent ↦ rw (==_self g, lookup-map_values (touch now) w (s.members g), absent) refl
  | inr (m, found) ↦
      rw (==_self g, lookup-map_values (touch now) w (s.members g), found) (touch-row now m)
]

pub expelled_row :
    (now g u w : ℕ) (was_admin : Bool) (s : Store)
    → is_active_member (lookup u (s.members g)) ≡ true
    → lookup w ((expel now g u was_admin s).members g)
      ≡ (if w == u then departed now (lookup w (s.members g)) else lookup w (s.members g))
unfolding expel
expelled_row now g u w was_admin s there =
    let (m, at_u, active) = active_row (lookup u (s.members g)) there in
    let part : ConversationMember → ConversationMember = λ m. record m { left_at = some now } in
    elim (Bool-cases (w == u)) [
      | inl same ↦
          let wu = eq_of_== w u same in
          rw (==_self g, same, wu, lookup-adjust_self u part m (s.members g) at_u, at_u) refl
      | inr other ↦
          rw (==_self g, other, lookup-adjust_ne w u part (s.members g) (ne_of_== w u other)) refl
    ]

pub out_elsewhere :
    (fresh now g requester u h : ℕ) (was_admin : Bool) (text : MessageText) (s : Store)
    → h == g ≡ false
    → (post_system_message fresh now g requester text (expel now g u was_admin s)).members h
      ≡ s.members h
unfolding post_system_message expel
out_elsewhere fresh now g requester u h was_admin text s other = rw other refl

pub block_removed_members :
    (block : Bool) (now g u by : ℕ) (s : Store)
    → (block_removed block now g u by s).members ≡ s.members
unfolding block_removed insert_block
block_removed_members block now g u by s =
    elim (Bool-cases (block && not (is_user_blocked g u s))) [
      | inl wanted ↦ rw wanted refl
      | inr plain ↦ rw plain refl
    ]

pub out_blocks :
    (fresh now g requester u : ℕ) (was_admin : Bool) (text : MessageText) (s : Store)
    → (post_system_message fresh now g requester text (expel now g u was_admin s)).group_blocks
      ≡ s.group_blocks
unfolding post_system_message expel
out_blocks fresh now g requester u was_admin text s = refl
