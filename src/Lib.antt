-- ===== src/Lib.antt =====
-- stapel-chat: conversations, messages and presence behind a socket and a REST surface.
--
-- The services of services.py act on four tables. A conversation hands out one sequence; it places
-- a message when it is created and each later revision of it, so that a client which was away
-- resumes on one cursor. Each service runs in a transaction and schedules what is to go out after
-- the commit. The socket handlers and the views check a request and call the services; the presence
-- of a person follows their sockets; events about accounts merge or erase what a person owns.
--
-- How a file corresponds to the code:
--
--   Base, Base/*          lists, text, options and the lemmas about them
--   Values                JSON values, as the dicts of an attachment hold them
--   Model                 models.py: the tables, and `_direct_key` as `direct_key_of`
--   Registry              the merge of a registry in attachments.py, activity.py and subjects.py
--   Settings              conf.py, and the code outside the repository, as the record `Host`
--   World                 the state, the error values of services.py, the outbox and the callbacks
--   Realtime              realtime.py: `message_payload`; Realtime/Delivery: the streams, the signals
--                         and what each callback puts on them
--   Blocks                blocks.py: `blocked_pairs` and its modes
--   Attachments           attachments.py: `normalize_attachment`; Attachments/Describe:
--                         `describe_attachments`, `_apply_snapshot` and `prepare_attachments`
--   Sending               services.py: `_post_once` and what it calls; Sending/Post: `post_message`
--                         and the blocks; Sending/Changes: edits, deletions and erasure
--   Journal               the order that the sequence promises, as a relation on states;
--                         Journal/* relate each service to it
--   History               services.py: `journal_rows` and clearing; consumers.py: `_replay`
--   Creation              services.py: `create_direct`, `create_group`, `create_support`
--   Membership            services.py: leaving, clearing, markers, unread counts and the lists
--   Support               services.py: the support queue, assignment and status
--   Presence              presence.py: connections, lease, throttle and announcement;
--                         Presence/Reading: `snapshot`, `readable_by`, services.py's `presence_for`;
--                         Presence/Lease, Presence/Counting: the lease and the count of sockets
--   Inbox                 services.py: the last line of a row, its reason, and the search on it
--   Subjects              subjects.py: the registry, `resolve_cards`, `card_matches`
--   Search                services.py: `filter_inbox`, `subject_cards_for`, `preview_of`
--   Moderation            services.py: `moderation_content`, `conversation_participants`
--   Merging               actions.py: `handle_user_merged`; Merging/Gdpr: gdpr.py;
--                         Merging/Erasing, Merging/Erased, Merging/Forgotten: what an erasure leaves
--   Payload, Socket       consumers.py: the write frames, their payloads and their answers;
--                         Socket/Presence: `PresenceMixin`; Socket/Gate: `authorize`, `_server_seq`
--   Activity              activity.py: `resolve_activity`; services.py: `announce_activity`
--   Scope                 scope.py: the provider of a scope and of operators
--   Rest                  views.py: the guards, the answers and the requests; errors.py;
--                         Rest/Dto, Rest/Mappers: dto.py and the mappers; Rest/Threads,
--                         Rest/Messages, Rest/Desk: the views; Rest/Urls: urls_v1.py
--   Doors                 frames and requests together, in the order they were served
--   Checks                checks.py: the checks of the kinds, the body and the windows of presence
--   Backfill              cdn_refs_backfill.py, and the command of management/commands that runs it
--   Samples, Witnesses/*  a small chat, and the theorems applied to it
--
-- A service is a function from the state to a value or an error and the next state; `atomic` gives
-- back the state before it when its body raises. A service keeps the name it has in the code. A
-- message object that a caller holds is an argument of its own, and may be older than its row; a
-- row is written by the columns that the code names.
--
-- An id is the number that its UUID spells, since the text of a UUID orders and compares as that
-- number does; `Host.spell` gives the text where the code reads it. The primary key of a new row
-- is the next number, as `uuid4` repeats none. An instant is a number of seconds since 1970, and
-- the clock stands still within one service; time passes between the visits of `Doors`. Numbers
-- are unbounded, as they are in Python; the columns of the database are wide enough for any thread
-- that can be written.
--
-- The retry loop of `post_message` runs on the constant eight of the code, which a first attempt
-- never exceeds. The pages of a description run on a fuel of the number of references, and each
-- page takes at least one. What other requests do between two attempts of a send is the argument
-- `between`; within one transaction the lock on the conversation keeps them out.
--
-- What a request body means to its serializer, and which rows of a query a paginator shows, are
-- the framework's, and stand in the record `Framework`, as does what a message's serializer
-- raises; a refused body is the error that leaves the view. The rendering of a thread is taken not
-- to raise. A scope provider is a record of its three answers. Ids in a request body address rows:
-- what a malformed one of `participant_ids` does is not modelled.
--
-- A socket's user, and whether the library accepts the socket, are arguments, and so is whether the
-- database answers a call of presence; a call that fails is taken to write nothing.
--
-- Not modelled: the heartbeat and the resume protocol of the socket library, the registrations on
-- the bus, the schema of the views, the startup checks that probe what is installed, migrations and
-- code generation. The block store, the CDN, the owners of subjects, the guessing of file extensions,
-- lower-casing and folding, the truncation of a text, the conversions of a payload and the user
-- table are fields of `Host`, which no theorem defines.
pub mod Backfill
pub mod Base
pub mod Values
pub mod Model
pub mod Registry
pub mod Subjects
pub mod Settings
pub mod World
pub mod Blocks
pub mod Attachments
pub mod Realtime
pub mod Sending
pub mod Journal
pub mod History
pub mod Checks
pub mod Creation
pub mod Membership
pub mod Support
pub mod Presence
pub mod Inbox
pub mod Merging
pub mod Moderation
pub mod Search
pub mod Activity
pub mod Payload
pub mod Socket
pub mod Scope
pub mod Rest
pub mod Doors
pub mod Samples
mod Witnesses
