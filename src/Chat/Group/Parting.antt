-- ===== src/Chat/Group/Parting.antt =====
-- src/modules/chat/usecase/leave-group.ts: who owns a group that a member has left.
use chat_be.Base.{
  ℕ, ◌≡◌, refl, sym, ap, ◌∙◌, ◌≢◌, ◌⊎◌, inl, inr, Bool, true, false, not, ◌&&◌, ◌||◌, Option, none,
  some, [], ◌∷◌, arith, ◌==◌, if◌then◌else◌, ==_self, Bool-cases, Option-cases, is_some, Dict,
  lookup, values,
}
use chat_be.Chat.Model.{
  member_left, owner_left, ConversationMember, Store, ChatError, ok, throw, Result,
}
use chat_be.Chat.Settings.{is_active, owns}
use chat_be.Chat.Group.Ownership.{is_owner_of, post_system_message}
use chat_be.Chat.Group.Transfer.{IsOwned, IsOwnedBy, adjusted-IsOwnedBy, followed-IsOwnedBy}
use chat_be.Chat.Group.Owned.{updated-IsOwned, posted-IsOwned, owner_of}
use chat_be.Chat.Group.Leaving.{
  first, named_owner, automatic_owner, next_owner, depart, depart_as_owner, leave_as_owner,
  leave_guard, leave_group,
}
use chat_be.Chat.Group.Keeping.{owner_passes}

depart-IsOwned :
    (now g o u : ℕ) (s : Store) → IsOwned g o s → u ≢ o → IsOwned g o (depart now g u s)
unfolding depart
depart-IsOwned now g o u s h ne =
    updated-IsOwned g o h.conversation _ s _ h.found h.id h.owner_id refl (
      rw (==_self g) (
        adjusted-IsOwnedBy o u (λ m. record m { left_at = some now }) (s.members g) h.owned ne
          (λ m. refl) (λ m p. p)))

depart_as_owner-IsOwned :
    (now g u v : ℕ) (n : Option ℕ) (m : ConversationMember) (s : Store)
    → IsOwned g u s
    → lookup v (s.members g) ≡ some m
    → is_active m ≡ true
    → v ≢ u
    → IsOwned g v (depart_as_owner now g u n m s)
unfolding depart_as_owner
depart_as_owner-IsOwned now g u v n m s h at_v active ne =
    let user = (h.owned.rows v m at_v).0 in
    updated-IsOwned g v h.conversation _ s _ h.found h.id (ap some user) refl
      (rw (==_self g, user) (followed-IsOwnedBy now u v m (s.members g) h.owned at_v active ne))

Result-cases :
    {A : Type 0} (r : Result A) → ((e : ChatError) × (r ≡ throw e)) ⊎ ((a : A) × (r ≡ ok a))
Result-cases (throw e) = inl (e, refl)
Result-cases (ok a) = inr (a, refl)

named_owner-row :
    (o : Option ConversationMember) (m : ConversationMember) → named_owner o ≡ ok m → o ≡ some m
named_owner-row none m e = absurd (ground arith)
named_owner-row (some n) m e = elim (Bool-cases (is_active n)) [
  | inl active ↦ ground arith
  | inr gone ↦ absurd (ground arith)
]

first-row :
    (v : ℕ) (ms : Dict ConversationMember) (m : ConversationMember)
    → IsOwnedBy v ms
    → automatic_owner (first (values ms)) ≡ ok m
    → lookup m.user_id ms ≡ some m
first-row v [] m h e = absurd (ground arith)
first-row v ((k, n) ∷ ms) m h e =
    let (user, plain) = h.rows k n (rw (==_self k) refl) in
    elim (Bool-cases (is_some n.left_at)) [
      | inl left ↦ absurd (ground arith)
      | inr here ↦ (let same : n ≡ m = ground arith in ground (arith, ==_self k))
    ]

-- Whom the handler takes for the new owner has a row.
next_owner-row :
    (v : ℕ) (new_owner : Option ℕ) (auto : Bool) (ms : Dict ConversationMember)
    (m : ConversationMember)
    → IsOwnedBy v ms
    → next_owner new_owner auto ms ≡ ok m
    → lookup m.user_id ms ≡ some m
unfolding next_owner
next_owner-row v (some w) auto ms m h e =
    let found = named_owner-row (lookup w ms) m e in
    let (user, plain) = h.rows w m found in ap (λ k. lookup k ms) user ∙ found
next_owner-row v none true ms m h e = first-row v ms m h e
next_owner-row v none false ms m h e = absurd (ground arith)

-- The one who follows, if there is one, is an active member and not the one who leaves.
abbrev pub suits : ℕ → Result ConversationMember → Bool
suits u (throw e) = true
suits u (ok m) = is_active m && not (m.user_id == u)

abbrev pub is_error : Result ConversationMember → Bool
is_error (throw e) = true
is_error (ok m) = false

-- The owner after a member has left a group that `o` owned.
abbrev pub owner_after : ℕ → ℕ → Result ConversationMember → ℕ
owner_after o u (throw e) = o
owner_after o u (ok m) = if u == o then m.user_id else o

owner_after_plain :
    (o u : ℕ) (r : Result ConversationMember) → u == o ≡ false → owner_after o u r ≡ o
owner_after_plain o u (throw e) other = refl
owner_after_plain o u (ok m) other = rw other refl

-- `leaveGroup` in a group that `o` owns, where the member who is named as the new owner, or else the
-- one whom `autoTransferOwner` takes, if there is one, is an active member and not the one who leaves:
-- it throws and changes nothing exactly if its guard fails or `o` leaves and nobody follows; otherwise
-- it succeeds, and the group is owned by `o`, or by the one who follows, if `o` has left.
pub leave_group-IsOwned :
    (fresh now g o u : ℕ) (new_owner : Option ℕ) (name : ℕ → Option ℕ) (auto : Bool) (s : Store)
    (h : IsOwned g o s)
    → suits u (next_owner new_owner auto (s.members g)) ≡ true
    → (((is_some (leave_guard h.conversation (lookup u (s.members g)))
            || (u == o && is_error (next_owner new_owner auto (s.members g))))
          ≡ true)
        × ((e : ChatError) × (leave_group fresh now name g u new_owner auto s ≡ (throw e, s))))
      ⊎ (((is_some (leave_guard h.conversation (lookup u (s.members g)))
              || (u == o && is_error (next_owner new_owner auto (s.members g))))
            ≡ false)
          × ((leave_group fresh now name g u new_owner auto s).0 ≡ ok tt)
          × IsOwned g
              (owner_after o u (next_owner new_owner auto (s.members g)))
              (leave_group fresh now name g u new_owner auto s).1)
unfolding leave_group leave_as_owner
leave_group-IsOwned fresh now g o u new_owner name auto s h fits =
    let c = h.conversation in
    let found = h.found in
    let member = lookup u (s.members g) in
    let next = next_owner new_owner auto (s.members g) in
    elim (Option-cases (leave_guard c member)) [
      | inr (e, fails) ↦ inl (ground arith, (e, ground arith))
      | inl passes ↦ elim (Bool-cases (is_owner_of member c)) [
        | inr plain ↦
            let known = owner_passes g o s h in
            let other : u ≢ o = λ e. (let owns = rw (sym e) at known in absurd (ground arith)) in
            let differ : u == o ≡ false = ground arith in
            let t = depart now g u s in
            let text = member_left (name u) in
            let done : leave_group fresh now name g u new_owner auto s
                ≡ (ok tt, post_system_message fresh now g u text t) =
              ground arith in
            inr (
              ground arith,
              rw done refl,
              rw (done, owner_after_plain o u next differ)
                  (posted-IsOwned fresh now g o u text t (depart-IsOwned now g o u s h other)),
            )
        | inl owns ↦
            let mine = owner_of g o u c s h found owns in
            let same : u == o ≡ true = ground arith in
            elim (Result-cases next) [
              | inl (e, nobody) ↦ inl (rw nobody (ground arith), (e, ground arith))
              | inr (m, follows) ↦
                  let at_v = next_owner-row o new_owner auto (s.members g) m h.owned follows in
                  let fit = rw follows at fits in
                  let v = m.user_id in
                  let ne : v ≢ u = λ e. absurd (ground arith) in
                  let t = depart_as_owner now g u new_owner m s in
                  let text = owner_left (name u) (name v) in
                  let done : leave_group fresh now name g u new_owner auto s
                      ≡ (ok tt, post_system_message fresh now g u text t) =
                    ground arith in
                  let parted =
                    depart_as_owner-IsOwned now g u v new_owner m s (rw (sym mine) at h) at_v
                      (ground arith) ne in
                  inr (
                    rw follows (ground arith),
                    rw done refl,
                    rw (done, follows, same) (posted-IsOwned fresh now g v u text t parted),
                  )
            ]
      ]
    ]
