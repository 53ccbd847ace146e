-- ===== src/Lib.antt =====
-- ms-go-comment: a service for discussions. A space holds the rules for a kind of resource, a thread
-- belongs to one resource of a space, and comments form a tree in a thread. Images are attached to
-- comments, access grants and realtime tickets are short-lived rights, and an outbox holds the events
-- that other services hear about.
--
-- The parts, and the code they model:
--   Base     booleans, lists, integers, texts and results; nothing of the program but the sentinel
--            errors of internal/domain/errors.go.
--   Domain   internal/domain: Actor (actor.go), Space (space.go), Thread (thread.go), Comment and
--            Content (comment.go), Grant (access_grant.go), Ticket (realtime_ticket.go), Attachment
--            (attachment.go), Image (image.go), Outbox (outbox.go), and Json for the payloads. Every
--            `Validate` is a function into results, named after its type: `Policy.Validate` is
--            `validate_policy`.
--   Store    internal/infrastructure/persistence/postgres: Database is the tables as lists, and each
--            statement of a repository is a `Query`, a function from the time of the database and the
--            tables to a result and the new tables (Spaces, Threads, Comments, Attachments, Outbox,
--            Tokens). Monad is how the services run: `M` passes on the tables, the number of the next
--            call and whether a transaction is open; `within_transaction` is
--            `TransactionManager.WithinTransaction` (tx.go). Triples holds the rules for
--            preconditions and postconditions of such runs.
--   Usecase  internal/usecase. Discussion is comment/service.go; below it are Context
--            (`authorizeAccess`, `loadThreadContext`, `loadMutableComment`), Create (`EnsureThread`,
--            `CreateComment`), Edit (`UpdateComment`, `DeleteComment`), Read (the four readers), Emit
--            (`addOutbox`) and Sets (`equalUUIDSet`). Files is comment/attachment_service.go, with
--            Transfer (upload and signed URL), Lifecycle (`DeleteAttachment`,
--            `emitAttachmentLifecycle`) and Work (`ProcessAttachmentWork`). Dispatch is
--            realtime/dispatcher.go, Grants is access/service.go, Tickets is
--            realtime/ticket_service.go and Admin is admin/service.go.
--   Order    the order of the changes, the invariant behind the change feed: thread identifiers are
--            distinct, comments differ in identifier and, within a thread, in sequence number, no
--            number exceeds the last one of its thread, and every comment has its thread. It goes from
--            the statements (Threads, Comments, Replies, Opening) over the operations (Steps, Creation,
--            Files, Administration) to histories of them (Histories); Feed and Pages are the readers.
--   Transport
--            internal/transport. Limits is the rate limiter of http/middleware/guardrails.go,
--            Guards the middlewares of http/middleware/auth.go and their chain in
--            http/api/router.go. Protocol is websocket/protocol.go, Hub is websocket/hub.go (Reach
--            and Journeys are its runs), Sessions is websocket/handler.go: the handshake, and in
--            Loops a round of `readLoop` and of `writeLoop`. Http is http/handlers: the table of
--            errors, the parameters and the bodies; Views (the documents), Cursors (cursor.go),
--            Discussions (comment.go), Statuses and Spaces (admin.go) and Services (internal.go,
--            attachment.go, realtime.go). Following is a client that follows the cursors of
--            `ListComments`.
--   Config   internal/config/config.go, and what the modes of cmd/ms-comment-service/main.go start.
--   Tests    runs at concrete inputs.
--
-- How the parts interact: a use case checks its input with Domain, runs statements of Store inside
-- one transaction, and ends with an event in the outbox of the same transaction. An environment
-- `Env` decides what the service does not: which statements fail, the clock, new identifiers,
-- random bytes, and what the file service and the publisher answer. It does so by the number of the
-- call, so that nothing is assumed of two answers. A handler reads its parameters, calls one use
-- case and answers with a document; the middlewares in front of it are functions of the headers.
-- The dispatcher publishes the events of the outbox, and the hub of every instance makes frames of
-- them for the sessions of their thread; a session is a client of the hub, whose loops are steps on
-- it.
--
-- How values are represented:
--   A UUID is a number, with 0 for `uuid.Nil`. A time and a duration are nanoseconds, and the zero time
--   is 0. `int`, `int16` and `int64` are unbounded integers: the fields are bounded by the validations
--   or count rows, far below the width; permissions are 16-bit patterns,
--   and the shift of the retry delays is on 64 bits. A string is a list of code
--   points, so that invalid UTF-8 is not represented. A nil slice and an empty one are the same, and
--   so are a nil map and an empty one. An error is the sentinel that `errors.Is` finds in it, or
--   `unavailable`. `ToUpper` and `EqualFold` are exact where the result is compared with ASCII text.
--
-- What is assumed: transactions run one after the other, which is what the row locks and the advisory
-- lock of the code provide for the rows they touch; a statement that fails has no effect. Primary and
-- unique keys are modelled but for uq_comment_thread_sequence: here, no statement refuses a second
-- comment of a thread with the same sequence number. The check and foreign key constraints of
-- db/migrations are not modelled.
-- An arbitrary order of the hub's steps stands for the interleavings of its goroutines. A call of
-- an exported method or of `register`, `unregister`, `activate` or `enqueue` is one step. The code
-- of `broadcast` releases its lock before it ends the registrations of the clients whose queues
-- were full; the runs of Reach and Journeys have a whole broadcast as a step, and its first locked
-- section as another, behind which any step may come. No step of another session runs inside a
-- handshake in Sessions; in the runs of Journeys, its registration and its activation are steps of
-- their own. The initial frames of a session are written before the frames of its queue, and the
-- order in which a map is iterated is the order of a list. A request is given by its parts: the
-- body as the values that its decoder reads, an identifier as what `uuid.Parse` makes of it, and a
-- cursor as what base64 and JSON make of it.
-- `url.Parse`, `url.ParseRequestURI`, `image.DecodeConfig`, SHA-256 and base64 are parameters, and so
-- is the authorizer of a service. The errors that a worker joins are a list; the text of an error is
-- its bytes.
--
-- No loop of the code needs fuel: each runs over a list. The client of Transport.Http.Following has
-- fuel for its requests; every page but the last holds a comment, so that one more than the number of
-- comments is enough.
--
-- The tokens of the rate limiter are counted in units of a thousand-millionth, so that `elapsed*rate` is
-- a whole number; the rounding of `float64` is not represented. The theorems on it ask that a bucket
-- fills up within the idle time, which the validation of the settings does not ensure.
--
-- Not modelled: the adapters for NATS and the file service, the copying of columns into fields, the
-- wiring, tickers and shutdown of the process (input and output); the tables of routes; security
-- headers, request identifiers and the recovery of panics; the connection of a session, its deadlines
-- and the upgrade of the request.
pub mod Base
pub mod Domain
pub mod Store
pub mod Usecase
pub mod Order
pub mod Transport
pub mod Config
pub mod Tests
