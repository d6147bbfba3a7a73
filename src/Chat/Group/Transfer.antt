-- ===== src/Chat/Group/Transfer.antt =====
-- src/modules/chat/usecase: a group has one owner, also after its handlers.
use chat_be.Base.{
  ℕ, ◌≡◌, sym, ◌∙◌, ◌≢◌, inl, inr, true, false, some, arith, Dict, lookup, map_values,
  lookup-map_values, adjust, lookup-adjust_ne, lookup-adjust_cases, lookup-map_values_cases,
  Bool-cases, refl, ◌==◌, eq_of_==, ne_of_==, lookup-adjust_self,
}
use chat_be.Chat.Model.{Conversation, ConversationMember, Store, ConversationMemberRole}
use chat_be.Chat.Settings.{is_active, is_owner_role, owns}
use chat_be.Chat.Group.Ownership.{touch, set_role}

-- A row stands under its user, and only the owner `v` has the role.
abbrev pub RowFits : ℕ → ℕ → ConversationMember → Type 0
RowFits v w m = (m.user_id ≡ w) × (is_owner_role m.role ≡ true → w ≡ v)

-- `v` is an active member with the role of the owner, and nobody else has that role.
pub record IsOwnedBy (v : ℕ) (ms : Dict ConversationMember) : Type 0 where
  pub present :
      (m : ConversationMember) × (lookup v ms ≡ some m)
      × (is_active m ≡ true)
      × (is_owner_role m.role ≡ true)
  pub rows : (w : ℕ) (m : ConversationMember) → lookup w ms ≡ some m → RowFits v w m

-- The group `g` is owned by `v`: its conversation names him, who alone of the members has the role.
pub record IsOwned (g v : ℕ) (s : Store) : Type 0 where
  pub conversation : Conversation
  pub found : lookup g s.conversations ≡ some conversation
  pub id : conversation.id ≡ g
  pub owner_id : conversation.owner_id ≡ some v
  pub owned : IsOwnedBy v (s.members g)

pub touched-IsOwnedBy :
    (now v : ℕ) (ms : Dict ConversationMember)
    → IsOwnedBy v ms
    → IsOwnedBy v (map_values (touch now) ms)
touched-IsOwnedBy now v ms h =
    let (m, at_v, active, owns) = h.present in
    record {
      present = (
        touch now m,
        ground (arith, lookup-map_values (touch now) v ms),
        ground arith,
        ground arith,
      );
      rows = λ w n e.
          (let (o, at_w, same) = lookup-map_values_cases w (touch now) n ms e in
            let (user, only) = h.rows w o at_w in
            rw (sym same) (ground arith, λ r. only (ground arith)));
    }

pub plain_of :
    (v u : ℕ) (o : ConversationMember)
    → u ≢ v
    → (is_owner_role o.role ≡ true → u ≡ v)
    → is_owner_role o.role ≡ false
plain_of v u o ne only = elim (Bool-cases (is_owner_role o.role)) [
  | inl owns ↦ absurd (ne (only owns))
  | inr plain ↦ plain
]

-- A change of the row of another member that gives him no new role.
pub adjusted-IsOwnedBy :
    (v u : ℕ) (f : ConversationMember → ConversationMember) (ms : Dict ConversationMember)
    → IsOwnedBy v ms
    → u ≢ v
    → ((m : ConversationMember) → (f m).user_id ≡ m.user_id)
    → ((m : ConversationMember) → is_owner_role m.role ≡ false → is_owner_role (f m).role ≡ false)
    → IsOwnedBy v (adjust u f ms)
adjusted-IsOwnedBy v u f ms h ne keeps_user keeps_role =
    let (m, at_v, active, owns) = h.present in
    record {
      present = (m, lookup-adjust_ne v u f ms (λ e. ne (sym e)) ∙ at_v, active, owns);
      rows = λ w n e. elim (lookup-adjust_cases w u f n ms e) [
        | inr (other, old) ↦ h.rows w n old
        | inl (wu, o, at_u, same) ↦
            let (user, only) = h.rows u o at_u in
            let plain : is_owner_role o.role ≡ false = plain_of v u o ne only in
            rw (sym same)
              (ground (arith, keeps_user o), λ r. absurd (ground (arith, keeps_role o plain)))
      ];
    }

-- No row has the role of the owner.
NobodyOwns : Dict ConversationMember → Type 0
NobodyOwns ms =
    (w : ℕ) (m : ConversationMember)
    → lookup w ms ≡ some m
    → (m.user_id ≡ w) × (is_owner_role m.role ≡ false)

-- The owner gives up his role.
resigned-NobodyOwns :
    (u : ℕ) (f : ConversationMember → ConversationMember) (ms : Dict ConversationMember)
    → IsOwnedBy u ms
    → ((m : ConversationMember) → (f m).user_id ≡ m.user_id)
    → ((m : ConversationMember) → is_owner_role (f m).role ≡ false)
    → NobodyOwns (adjust u f ms)
unfolding NobodyOwns
resigned-NobodyOwns u f ms h keeps_user resigns w n e = elim (lookup-adjust_cases w u f n ms e) [
  | inr (other, old) ↦ let (user, only) = h.rows w n old in (user, plain_of u w n other only)
  | inl (wu, o, at_u, same) ↦
      let (user, only) = h.rows u o at_u in rw (sym same) (ground (arith, keeps_user o), resigns o)
]

crowned-IsOwnedBy :
    (v : ℕ) (m : ConversationMember) (ms : Dict ConversationMember)
    → NobodyOwns ms
    → lookup v ms ≡ some m
    → is_active m ≡ true
    → IsOwnedBy v (adjust v (set_role ConversationMemberRole.owner) ms)
unfolding NobodyOwns
crowned-IsOwnedBy v m ms h at_v active =
    let f = set_role ConversationMemberRole.owner in
    record {
      present = (f m, lookup-adjust_self v f m ms at_v, active, refl);
      rows = λ w n e. elim (lookup-adjust_cases w v f n ms e) [
        | inr (other, old) ↦ (let (user, plain) = h w n old in (user, λ r. absurd (ground arith)))
        | inl (wv, o, found, same) ↦
            let (user, plain) = h v o found in rw (sym same) (ground arith, λ r. wv)
      ];
    }

-- The owner `u` gets the role of an admin, and the active member `v` that of the owner.
pub handed-IsOwnedBy :
    (u v : ℕ) (m : ConversationMember) (ms : Dict ConversationMember)
    → IsOwnedBy u ms
    → lookup v ms ≡ some m
    → is_active m ≡ true
    → IsOwnedBy v (
        adjust v
          (set_role ConversationMemberRole.owner)
          (adjust u (set_role ConversationMemberRole.admin) ms))
handed-IsOwnedBy u v m ms h at_v active =
    let f = set_role ConversationMemberRole.admin in
    let nobody = resigned-NobodyOwns u f ms h (λ o. refl) (λ o. refl) in
    elim (Bool-cases (v == u)) [
      | inr other ↦
          let ne = ne_of_== v u other in
          crowned-IsOwnedBy v m (adjust u f ms) nobody (lookup-adjust_ne v u f ms ne ∙ at_v) active
      | inl same ↦
          let vu = eq_of_== v u same in
          let at_u : lookup u ms ≡ some m = rw vu at at_v in
          let new : lookup v (adjust u f ms) ≡ some (f m) =
            rw vu (lookup-adjust_self u f m ms at_u) in
          crowned-IsOwnedBy v (f m) (adjust u f ms) nobody new active
    ]

middle_user :
    (v u : ℕ) (o : ConversationMember) (ms : Dict ConversationMember)
    → IsOwnedBy u ms
    → lookup u (adjust v (set_role ConversationMemberRole.owner) ms) ≡ some o
    → o.user_id ≡ u
middle_user v u o ms h e =
    elim (lookup-adjust_cases u v (set_role ConversationMemberRole.owner) o ms e) [
      | inr (other, old) ↦ (h.rows u o old).0
      | inl (uv, p, found, same) ↦ rw (sym same) ((h.rows v p found).0 ∙ sym uv)
    ]

-- The active member `v` gets the role of the owner, and the owner `u`, another one, leaves.
pub followed-IsOwnedBy :
    (now u v : ℕ) (m : ConversationMember) (ms : Dict ConversationMember)
    → IsOwnedBy u ms
    → lookup v ms ≡ some m
    → is_active m ≡ true
    → v ≢ u
    → IsOwnedBy v (
        adjust u
          (λ m. record m { left_at = some now; role = ConversationMemberRole.admin })
          (adjust v (set_role ConversationMemberRole.owner) ms))
followed-IsOwnedBy now u v m ms h at_v active ne =
    let g : ConversationMember → ConversationMember =
      λ m. record m { left_at = some now; role = ConversationMemberRole.admin } in
    let f = set_role ConversationMemberRole.owner in
    record {
      present = (
        f m,
        lookup-adjust_ne v u g (adjust v f ms) ne ∙ lookup-adjust_self v f m ms at_v,
        active,
        refl,
      );
      rows = λ w n e. elim (lookup-adjust_cases w u g n (adjust v f ms) e) [
        | inr (other, middle) ↦ elim (lookup-adjust_cases w v f n ms middle) [
          | inr (another, old) ↦
              (let (user, only) = h.rows w n old in (user, λ r. absurd (other (only r))))
          | inl (wv, o, found, same) ↦
              let (user, only) = h.rows v o found in rw (sym same) (ground arith, λ r. wv)
        ]
        | inl (wu, o, found, same) ↦
            let user = middle_user v u o ms h found in
            rw (sym same) (ground arith, λ r. absurd (ground arith))
      ];
    }
