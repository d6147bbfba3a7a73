-- ===== src/Lib.antt =====
-- A model of the chat server's core, with its correctness theorems. Paths are from the root of the
-- repository.
--
-- The parts, and where they stand:
--
-- - Call: src/modules/call/usecase/call-v2.service.ts with src/modules/call/model/model.ts, and the
--   choice of callees in src/modules/call/infras/transport/http/call-v2.controller.ts. The three maps
--   of CallV2Service are one record; a method is a function from that state to a result and the next
--   state (Call/Model). Call/Service has the look-ups, guards and releases, Call/Create createCall,
--   Call/Moves join, reject, miss and leave, Call/Ends the end, the timeout and the rest, and
--   Call/Invitees the controller's choice. Call/Reach lists the steps: any method at any time, and
--   the timer of a call at any time after it was made.
-- - Privacy: src/modules/user/usecase/relationship-privacy-policy-v2.ts. Privacy/Policy has its tests
--   and Privacy/Profile its profiles, on what three repositories answer.
-- - Social: src/modules/friend-requests, src/modules/friendships and src/modules/blocks. Social/Tables
--   has what their use cases call of the dynamodb-repo files, Social/Requests the friend requests,
--   Social/Blocks blocks and the end of a friendship. The tables of Social answer the look-ups of
--   Privacy, which joins the two parts in Social/Outcomes.
-- - Chat: src/modules/chat, whose tables are one record of lists (Chat/Model).
--   Chat/Access and Chat/Membership are chat-access-policy.ts: who may come into a group, and who is
--   in it. Chat/Settings is group-permissions.ts but for polls.
--   Chat/Group is what changes a group: Ownership has transfer-owner.ts and set-admin.ts, Leaving
--   leave-group.ts, Roster remove-member-from-group.ts, approve-member.ts and reject-member.ts,
--   Joining join-group-by-invite.ts, Adding add-members-to-group.ts, Barring group-block.ts,
--   Dissolving dissolve-group.ts, Founding create-group.ts, Info update-group-settings.ts and
--   update-group-info.ts, and Links get-group-invite-link.ts. Chat/Group/Reach runs a list of those
--   commands on a group, one after the other.
--   Chat/Poll/View is what a member sees of a poll, Chat/Poll/Ballot and Chat/Poll/Vote are
--   vote-poll.ts with the activity message of utility-messages.ts, and Chat/Poll/Making and
--   Chat/Poll/Managing are create-poll.ts, add-poll-option.ts and manage-poll.ts.
--   Chat/Utility is group-utilities.ts with utility-messages.ts and group-utility-worker.ts: reminders
--   and their dates (Schedule, Reminders), notes (Notes) and the rounds of the worker (Worker).
--   Chat/Messages has the handlers that revoke, delete, edit, pin and unpin a message.
-- - Base: the names that all share, lists with the methods of arrays, and maps as lists of entries.
--
-- Conventions. An id is a number, since the code only compares ids; the order of two texts that
-- sort() gives is the order of the numbers. What may be null, undefined or an empty id is an Option.
-- A date is a number of milliseconds. Date.now(), new Date() and the ids of uuid are arguments of the
-- model, and a theorem that needs an id to be new says so, as does one that needs a caller not to be
-- among his own callees. Where the code tests a date for
-- truth, the date is not 0. An await does not let another request in: a handler is one step. A write
-- to a table does not fail, and a read sees the writes before it. What the code asks of the calendar
-- (setDate, setMonth), of texts (trim, an order) and of the directory of users is a parameter.
--
-- One loop has no bound in the code, that of getNextRepeatedReminderAt in Chat/Utility/Schedule. It
-- runs on fuel of the present time and two more turns, in milliseconds, which is enough because each
-- turn is at least a millisecond later than the one before. All others run through a list.
--
-- Not modelled: the HTTP and socket transports and their parsing of input, sign-in and sessions,
-- media, search, the summaries by a language model, presence over sockets, the layers of the
-- repositories that page through results, the undoing of writes after one that failed, the tables of
-- reactions and of the kinds of messages, the deletion of the messages of a time span, and the
-- handlers of src/modules/chat/usecase other than those named: sending, forwarding, reactions, read
-- receipts, lists and settings of conversations.
pub mod Base
pub mod Call
pub mod Chat
pub mod Privacy
pub mod Social
