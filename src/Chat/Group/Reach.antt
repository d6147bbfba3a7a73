-- ===== src/Chat/Group/Reach.antt =====
-- src/modules/chat/usecase: what the users of a group do, one after the other. An invite link of the
-- group that is found, not revoked and not expired is one that leads to `enter_group`.
use chat_be.Base.{
  ℕ, ◌≡◌, sym, ap, ◌≢◌, Bool, true, false, not, ◌&&◌, Option, none, some, List, [], ◌∷◌, arith,
  ◌==◌, ==_self, is_some,
}
use chat_be.Chat.Access.{Directory}
use chat_be.Chat.Settings.{is_user}
use chat_be.Chat.Model.{Store, StoredSettings}
use chat_be.Chat.Group.Departing.{leave_group-IsKept}
use chat_be.Chat.Group.Ownership.{transfer_owner, set_admin}
use chat_be.Chat.Group.Additions.{add_members_to_group-IsKept}
use chat_be.Chat.Group.Counted.{IsKept}
use chat_be.Chat.Group.Handing.{transfer_owner-IsKept, set_admin-IsKept}
use chat_be.Chat.Group.Barrings.{block_group_member-IsKept, unblock_group_member-IsKept}
use chat_be.Chat.Group.Rosters.{remove_member-IsKept, approve_member-IsKept, reject_member-IsKept}
use chat_be.Chat.Group.Joins.{enter_group-IsKept}
use chat_be.Chat.Group.Roster.{remove_member, approve_member, reject_member}
use chat_be.Chat.Group.Joining.{enter_group}
use chat_be.Chat.Group.Barring.{block_group_member, unblock_group_member}
use chat_be.Chat.Group.Adding.{add_members_to_group}
use chat_be.Chat.Group.Leaving.{leave_group}
use chat_be.Chat.Group.Settled.{
  update_group_settings-IsKept, update_group_info-IsKept, get_group_invite_link-IsKept,
  regenerate_group_invite_link-IsKept, revoke_group_invite_link-IsKept,
}
use chat_be.Chat.Group.Links.{
  get_group_invite_link, regenerate_group_invite_link, revoke_group_invite_link,
}
use chat_be.Chat.Group.Info.{update_group_settings, update_group_info}

-- What a call has from outside: the ids that v7() gives, the time, the names and the directory.
pub record Context : Type 0 where
  pub fresh : ℕ
  pub next_fresh : ℕ
  pub row_id : ℕ → ℕ
  pub now : ℕ
  pub name : ℕ → Option ℕ
  pub dir : Directory

pub data GroupCommand : Type 0 where
  transfers : (requester new_owner : ℕ) → GroupCommand
  sets_admin : (requester target : ℕ) (is_admin : Bool) → GroupCommand
  leaves : (user : ℕ) (new_owner : Option ℕ) → GroupCommand
  adds : (requester : ℕ) (ids : List ℕ) → GroupCommand
  removes : (requester target : ℕ) (block : Bool) → GroupCommand
  approves rejects : (user requester : ℕ) → GroupCommand
  joins : (user : ℕ) → GroupCommand
  blocks unblocks : (requester target : ℕ) → GroupCommand
  sets : (requester : ℕ) (change : StoredSettings) → GroupCommand
  informs : (requester : ℕ) (new_name new_avatar : Option ℕ) → GroupCommand
  gets_link renews_link revokes_link : (requester : ℕ) → GroupCommand

unfoldable pub run_command : ℕ → Context → GroupCommand → Store → Store
run_command g x (transfers u v) s = (transfer_owner x.fresh x.now x.name g u v s).1
run_command g x (sets_admin u v is_admin) s = (set_admin x.fresh x.now x.name g u v is_admin s).1
run_command g x (leaves u v) s = (leave_group x.fresh x.now x.name g u v false s).1
run_command g x (adds u ids) s =
    (add_members_to_group x.fresh x.row_id x.now x.name x.dir g u ids s).1
run_command g x (removes u v block) s = (remove_member x.fresh x.now x.name g u v block s).1
run_command g x (approves u v) s = (approve_member x.fresh x.now x.name g u v s).1
run_command g x (rejects u v) s = (reject_member x.fresh x.now x.name g u v s).1
run_command g x (joins u) s = (enter_group x.fresh (x.row_id u) x.now x.name g u s).1
run_command g x (blocks u v) s = (block_group_member x.fresh x.now x.name g u v s).1
run_command g x (unblocks u v) s = (unblock_group_member g u v s).1
run_command g x (sets u change) s = (update_group_settings g u change s).1
run_command g x (informs u new_name new_avatar) s =
    (update_group_info x.fresh x.next_fresh x.now x.name g u new_name new_avatar s).1
run_command g x (gets_link u) s = (get_group_invite_link x.fresh x.now g u s).1
run_command g x (renews_link u) s = (regenerate_group_invite_link x.fresh x.now g u s).1
run_command g x (revokes_link u) s = (revoke_group_invite_link x.now g u s).1

unfoldable pub run_commands : ℕ → List (Context × GroupCommand) → Store → Store
run_commands g [] s = s
run_commands g ((x, command) ∷ rest) s = run_commands g rest (run_command g x command s)

-- Nobody who leaves names himself as the new owner.
abbrev pub names_other : GroupCommand → Bool
names_other (leaves u (some v)) = not (v == u)
names_other _ = true

abbrev pub all_name_others : List (Context × GroupCommand) → Bool
all_name_others [] = true
all_name_others ((x, command) ∷ rest) = names_other command && all_name_others rest

other_named : (u v : ℕ) → names_other (leaves u (some v)) ≡ true → some v ≢ some u
other_named u v h e =
    let same : is_user (some u) v ≡ is_user (some v) v = ap (λ o. is_user o v) (sym e) in
    absurd (ground (arith, ==_self v))

nobody_ne : (u : ℕ) → none ≢ some u
nobody_ne u e = absurd (let h = ap is_some e in ground arith)

run_command-IsKept :
    (g o : ℕ) (x : Context) (command : GroupCommand) (s : Store)
    → IsKept g o s
    → names_other command ≡ true
    → (w : ℕ) × IsKept g w (run_command g x command s)
unfolding run_command
run_command-IsKept g o x (transfers u v) s h e =
    transfer_owner-IsKept x.fresh x.now g o u v x.name s h
run_command-IsKept g o x (sets_admin u v is_admin) s h e =
    (o, set_admin-IsKept x.fresh x.now g o u v x.name is_admin s h)
run_command-IsKept g o x (leaves u none) s h e =
    leave_group-IsKept x.fresh x.now g o u none x.name s h (nobody_ne u)
run_command-IsKept g o x (leaves u (some v)) s h e =
    leave_group-IsKept x.fresh x.now g o u (some v) x.name s h (other_named u v e)
run_command-IsKept g o x (adds u ids) s h e =
    (o, add_members_to_group-IsKept x.fresh x.row_id x.now g o u x.name x.dir ids s h)
run_command-IsKept g o x (removes u v block) s h e =
    (o, remove_member-IsKept x.fresh x.now g o u v x.name block s h)
run_command-IsKept g o x (approves u v) s h e =
    (o, approve_member-IsKept x.fresh x.now g o u v x.name s h)
run_command-IsKept g o x (rejects u v) s h e =
    (o, reject_member-IsKept x.fresh x.now g o u v x.name s h)
run_command-IsKept g o x (joins u) s h e =
    (o, enter_group-IsKept x.fresh (x.row_id u) x.now g o u x.name s h)
run_command-IsKept g o x (blocks u v) s h e =
    (o, block_group_member-IsKept x.fresh x.now g o u v x.name s h)
run_command-IsKept g o x (unblocks u v) s h e = (o, unblock_group_member-IsKept g o u v s h)
run_command-IsKept g o x (sets u change) s h e = (o, update_group_settings-IsKept g o u change s h)
run_command-IsKept g o x (informs u new_name new_avatar) s h e =
    (o, update_group_info-IsKept x.fresh x.next_fresh x.now g o u x.name new_name new_avatar s h)
run_command-IsKept g o x (gets_link u) s h e =
    (o, get_group_invite_link-IsKept x.fresh x.now g o u s h)
run_command-IsKept g o x (renews_link u) s h e =
    (o, regenerate_group_invite_link-IsKept x.fresh x.now g o u s h)
run_command-IsKept g o x (revokes_link u) s h e =
    (o, revoke_group_invite_link-IsKept x.now g o u s h)

-- However the handlers of a group run one after the other, if nobody who leaves names himself, and
-- none has the code choose the new owner, a group with an owner, with a count that is that of its
-- active members, and whose left rows are those of members let in, remains such a group.
pub run_commands-IsKept :
    (g o : ℕ) (calls : List (Context × GroupCommand)) (s : Store)
    → IsKept g o s
    → all_name_others calls ≡ true
    → (w : ℕ) × IsKept g w (run_commands g calls s)
unfolding run_commands
run_commands-IsKept g o [] s h e = (o, h)
run_commands-IsKept g o ((x, command) ∷ rest) s h e =
    let (w, next) = run_command-IsKept g o x command s h (ground arith) in
    run_commands-IsKept g w rest (run_command g x command s) next (ground arith)
