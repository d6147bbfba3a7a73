-- ===== src/Chat/Group/Writing.antt =====
-- src/modules/chat/usecase/add-members-to-group.ts: the loops that write the rows.
use chat_be.Base.{
  ℕ, suc, ◌+◌, ◌≡◌, refl, ap, ◌∙◌, ◌≢◌, Bool, true, false, some, List, [], ◌∷◌, arith, ◌==◌,
  if◌then◌else◌, ==_self, ne_of_==, is_some, length, includes, Dict, lookup, insert,
  lookup-insert_ne, adjust, not, includes-filter,
}
use chat_be.Call.Invitees.{others}
use chat_be.Chat.Settings.{is_active, is_active_member, is_owner_role, is_active_status}
use chat_be.Chat.Model.{ConversationMember, ConversationMemberStatus}
use chat_be.Chat.Poll.Voters.{is_distinct, filter-is_distinct}
use chat_be.Chat.Group.Transfer.{IsOwnedBy}
use chat_be.Chat.Group.Counted.{bit, count_active, count_active-insert, is_settled}
use chat_be.Chat.Group.Rosters.{present_row}
use chat_be.Chat.Group.Rewriting.{inserted-IsOwnedBy, inserted-is_settled, absent_ne}
use chat_be.Chat.Group.Adding.{
  insert_all, adjust_all, rejoined, to_insert, to_update, write_members, added_count,
}
use chat_be.Chat.Group.Joining.{new_row}
use chat_be.Chat.Group.Leaving.{first}

-- The rows that a group of `v` may have.
pub record IsFit (v : ℕ) (ms : Dict ConversationMember) : Type 0 where
  pub owned : IsOwnedBy v ms
  pub settled : (w : ℕ) (m : ConversationMember) → lookup w ms ≡ some m → is_settled m ≡ true

-- A row that may be written for the user `u`.
pub record IsPlainRow (u : ℕ) (b : Bool) (n : ConversationMember) : Type 0 where
  pub user : n.user_id ≡ u
  pub plain : is_owner_role n.role ≡ false
  pub settled : is_settled n ≡ true
  pub active : is_active n ≡ b

abbrev pub counts : Bool → ℕ → ℕ
counts b n = if b then n else 0

-- The rows of all users of a list are not those of active members.
abbrev pub IsIdle : List ℕ → Dict ConversationMember → Type 0
IsIdle us ms = (w : ℕ) → includes w us ≡ true → is_active_member (lookup w ms) ≡ false

-- After a row is written: the rows are fit, the row counts if it is active, and others stay.
inserted-IsFit :
    (v u : ℕ) (b : Bool) (n : ConversationMember) (ms : Dict ConversationMember)
    → IsFit v ms
    → is_active_member (lookup u ms) ≡ false
    → IsPlainRow u b n
    → IsFit v (insert u n ms) × (count_active (insert u n ms) ≡ bit b + count_active ms)
inserted-IsFit v u b n ms h gone fit =
    let ne = absent_ne v u ms h.owned gone in
    let after = count_active-insert u n ms in
    let was_not : bit (is_active_member (lookup u ms)) ≡ 0 = rw gone refl in
    let is_now : bit (is_active n) ≡ bit b = ap bit fit.active in
    (
      record {
        owned = inserted-IsOwnedBy v u n ms h.owned ne fit.user fit.plain;
        settled = inserted-is_settled u n ms h.settled fit.settled;
      },
      omega arith,
    )

apart : (w u : ℕ) (us : List ℕ) → includes u us ≡ false → includes w us ≡ true → w ≢ u
apart w u us fresh there wu = let here = rw wu at there in absurd (ground arith)

IsIdle-insert :
    (u : ℕ) (n : ConversationMember) (us : List ℕ) (ms : Dict ConversationMember)
    → includes u us ≡ false
    → IsIdle us ms
    → IsIdle us (insert u n ms)
IsIdle-insert u n us ms fresh h w there =
    ap is_active_member (lookup-insert_ne w u n ms (apart w u us fresh there)) ∙ h w there

IsIdle-head :
    (u : ℕ) (us : List ℕ) (ms : Dict ConversationMember)
    → IsIdle (u ∷ us) ms
    → (is_active_member (lookup u ms) ≡ false) × IsIdle us ms
IsIdle-head u us ms h = (h u (ground (arith, ==_self u)), λ w there. h w (ground arith))

counts-suc : (b : Bool) (n k : ℕ) → counts b n + (bit b + k) ≡ counts b (suc n) + k
counts-suc true n k = omega arith
counts-suc false n k = omega arith

counts-zero : (b : Bool) (k : ℕ) → k ≡ counts b 0 + k
counts-zero true k = omega arith
counts-zero false k = omega arith

counts-add : (b : Bool) (n k c : ℕ) → counts b k + (counts b n + c) ≡ (if b then n + k else 0) + c
counts-add true n k c = omega arith
counts-add false n k c = omega arith

pub insert_all-IsFit :
    (v : ℕ) (b : Bool) (row : ℕ → ConversationMember) (us : List ℕ) (ms : Dict ConversationMember)
    → IsFit v ms
    → IsIdle us ms
    → is_distinct us ≡ true
    → ((u : ℕ) → IsPlainRow u b (row u))
    → IsFit v (insert_all row us ms)
      × (count_active (insert_all row us ms) ≡ counts b (length us) + count_active ms)
insert_all-IsFit v b row [] ms h idle distinct fit = (h, counts-zero b (count_active ms))
insert_all-IsFit v b row (u ∷ us) ms h idle distinct fit =
    let fresh : includes u us ≡ false = ground arith in
    let (gone, others) = IsIdle-head u us ms idle in
    let (next, one) = inserted-IsFit v u b (row u) ms h gone (fit u) in
    let (all_fit, rest) =
      insert_all-IsFit v b row us (insert u (row u) ms) next
        (IsIdle-insert u (row u) us ms fresh others) (ground arith) fit in
    (all_fit, rest ∙ (rw one (counts-suc b (length us) (count_active ms))))

pub lookup-insert_all :
    (w : ℕ) (row : ℕ → ConversationMember) (us : List ℕ) (ms : Dict ConversationMember)
    → includes w us ≡ false
    → lookup w (insert_all row us ms) ≡ lookup w ms
lookup-insert_all w row [] ms h = refl
lookup-insert_all w row (u ∷ us) ms h =
    let other : w == u ≡ false = ground arith in
    lookup-insert_all w row us (insert u (row u) ms) (ground arith)
    ∙ lookup-insert_ne w u (row u) ms (ne_of_== w u other)

-- The rows of all users of a list are there.
AreThere : List ℕ → Dict ConversationMember → Type 0
AreThere us ms = (w : ℕ) → includes w us ≡ true → is_some (lookup w ms) ≡ true

adjust_all-IsFit :
    (v : ℕ) (b : Bool) (f : ConversationMember → ConversationMember) (us : List ℕ)
    (ms : Dict ConversationMember)
    → IsFit v ms
    → IsIdle us ms
    → AreThere us ms
    → is_distinct us ≡ true
    → ((u : ℕ) (m : ConversationMember) → m.user_id ≡ u → IsPlainRow u b (f m))
    → IsFit v (adjust_all f us ms)
      × (count_active (adjust_all f us ms) ≡ counts b (length us) + count_active ms)
unfolding AreThere
adjust_all-IsFit v b f [] ms h idle there distinct fit = (h, counts-zero b (count_active ms))
adjust_all-IsFit v b f (u ∷ us) ms h idle there distinct fit =
    let fresh : includes u us ≡ false = ground arith in
    let (gone, others) = IsIdle-head u us ms idle in
    let (m, at_u) = present_row (lookup u ms) (there u (ground (arith, ==_self u))) in
    let written : adjust u f ms ≡ insert u (f m) ms = rw at_u refl in
    let (next, one) = inserted-IsFit v u b (f m) ms h gone (fit u m (h.owned.rows u m at_u).0) in
    let stay : AreThere us (insert u (f m) ms) = λ w e.
      ap is_some (lookup-insert_ne w u (f m) ms (apart w u us fresh e)) ∙ there w (ground arith) in
    let (all_fit, rest) =
      adjust_all-IsFit v b f us (insert u (f m) ms) next (IsIdle-insert u (f m) us ms fresh others)
        stay (ground arith) fit in
    rw written (all_fit, rest ∙ (rw one (counts-suc b (length us) (count_active ms))))

pub new_row-IsPlainRow :
    (row_id u : ℕ) (status : ConversationMemberStatus) (now : ℕ)
    → IsPlainRow u (is_active_status status) (new_row row_id u status now)
new_row-IsPlainRow row_id u status now = record {
  user = refl;
  plain = refl;
  settled = refl;
  active = refl;
}

rejoined-IsPlainRow :
    (can_view : Bool) (status : ConversationMemberStatus) (now u : ℕ) (m : ConversationMember)
    → m.user_id ≡ u
    → IsPlainRow u (is_active_status status) (rejoined can_view status now m)
rejoined-IsPlainRow can_view status now u m user = record {
  user = user;
  plain = refl;
  settled = refl;
  active = refl;
}

-- The rows that the two loops write, when no user of the list has a row without `leftAt`.
pub write_members-IsFit :
    (v : ℕ) (row_id : ℕ → ℕ) (now : ℕ) (can_view : Bool) (status : ConversationMemberStatus)
    (ids : List ℕ) (ms : Dict ConversationMember)
    → IsFit v ms
    → is_distinct ids ≡ true
    → IsIdle ids ms
    → IsFit v (write_members row_id now can_view status ids ms)
      × (count_active (write_members row_id now can_view status ids ms)
          ≡ added_count status ms ids + count_active ms)
unfolding AreThere
write_members-IsFit v row_id now can_view status ids ms h distinct idle =
    let known : ℕ → Bool = λ u. is_some (lookup u ms) in
    let new = to_insert ms ids in
    let back = to_update ms ids in
    let row : ℕ → ConversationMember = λ u. new_row (row_id u) u status now in
    let b = is_active_status status in
    let middle = insert_all row new ms in
    let idle_new : IsIdle new ms =
      λ w e. idle w (let s = includes-filter (λ u. not (known u)) w ids in ground arith) in
    let (fit, first) =
      insert_all-IsFit v b row new ms h idle_new
        (filter-is_distinct (λ u. not (known u)) ids distinct)
        (λ u. new_row-IsPlainRow (row_id u) u status now) in
    let stays : (w : ℕ) → includes w back ≡ true → lookup w middle ≡ lookup w ms = λ w e.
      lookup-insert_all w row new ms (
        let s = includes-filter (λ u. not (known u)) w ids in
        let t = includes-filter known w ids in ground arith) in
    let idle_back : IsIdle back middle = λ w e.
      ap is_active_member (stays w e)
      ∙ idle w (let t = includes-filter known w ids in ground arith) in
    let there : AreThere back middle =
      λ w e. ap is_some (stays w e) ∙ (let t = includes-filter known w ids in ground arith) in
    let (all_fit, second) =
      adjust_all-IsFit v b (rejoined can_view status now) back middle fit idle_back there
        (filter-is_distinct known ids distinct)
        (λ u m user. rejoined-IsPlainRow can_view status now u m user) in
    (all_fit, second ∙ rw first (counts-add b (length new) (length back) (count_active ms)))
