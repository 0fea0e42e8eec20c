-- ===== src/Lib.antt =====
-- AlertMe: the Go backend of a paging service (backend/). A user pages a peer through the API
-- (internal/api), which stores the page and enqueues its first task; the pager (cmd/pager) takes
-- tasks off the queue, pushes the page to the recipient's devices, records the attempt and enqueues
-- the next task, until the recipient acknowledges or the page expires.
--
-- Model     backend/internal/model/model.go: the records, the page states, `Active`.
-- Nag       backend/internal/nag/schedule.go: `Delays`, `Expiry`, `NextDelay`.
-- Store     backend/internal/store/store.go: one constructor of `StoreCmd` per method, the errors.
--           Store/Contract: what callers of `SetPageState` and `CreatePage` owe, and what may become
--           of a page. Store/Fake: backend/internal/store/fake/store.go, a record of its maps, and a
--           function per method from the store to the result and the next store. Store/Exec: the
--           command of each method. Its child modules show what each command keeps.
-- Queue     backend/internal/queue/queue.go: `PageTask`, and `Enqueue` (Sqs). The store of tasks in
--           World is backend/internal/store/fake/enqueuer.go.
-- Push      backend/internal/push/push.go: `Notification`, the outcomes of `Send`. Push/Fcm:
--           backend/internal/push/fcm/fcm.go, `New` and `Send` (send, attempts, judge).
-- Prog      what handlers are written in: trees of the calls that they make of the store, the queue,
--           the push client, the clock and the source of random identifiers.
-- World     the state that calls act on, and `run`. An `Env` chooses the clock's readings, random
--           identifiers, the outcome of each push, and for each call of the store or the queue
--           whether it is answered, or its request or its answer is lost.
-- Pager     backend/cmd/pager/main.go: `handleBatch` (handle_batch), `handleRecord` (handle_record,
--           loaded, handle_page, on_active, expire, nag, notify, enqueue_next), `recordAttempt`.
-- Api       backend/internal/api: identity.go (Identity), api.go (Router), handlers.go (Contacts,
--           Create, Read, Receipts, Response), ids.go (Ids).
-- Dynamo    backend/internal/store/dynamo: keys.go (Keys), items.go (Items), and store.go, whose methods
--           (People, Pages) are state passing over a table that is a parameter (Table). Dynamo/Laws
--           says what DynamoDB documents of the calls, Dynamo/Refinement which table stands for which
--           state of the in-memory store.
-- Canary    backend/cmd/canary/main.go: `loadConfig`, `run` and its polling loop (poll), over a world
--           that is a parameter.
-- System    handlers of the API and the pager at work at once: `Reach` is any interleaving of their
--           calls, with handlers started at any time and tasks delivered in any order and number.
-- Tests     the examples.
--
-- Times are natural numbers of nanoseconds since Go's zero time; `int` is a 64-bit integer that
-- wraps round (Int). Loops run over lists, by structural recursion. The canary's loop runs on fuel for
-- 32 rounds: it pauses for two seconds after each, and leaves after sixty. A Go map is an association
-- list, read in its own order where Go leaves the order open.
--
-- Not modelled: JSON, HTTP and the matching of URLs, which hand the handlers decoded values; log
-- lines; the construction of AWS clients, with cmd/api, and infra. The handlers run on the
-- in-memory store. Throttling, outages and conflicts with the calls of others are left out of the
-- laws of DynamoDB, whose limits and whose eventually consistent reads are predicates of the
-- laws; its queries are left out too, so that the lists of internal/store/dynamo are defined, but
-- nothing is shown of them beyond the merge of the pages of both indexes. A panic or a lambda
-- that is stopped halfway is a thread that takes no further turn.
pub mod Prelude
pub mod Int
pub mod Model
pub mod Nag
pub mod Store
pub mod Queue
pub mod Push
pub mod Prog
pub mod World
pub mod Pager
pub mod Api
pub mod Dynamo
pub mod Canary
pub mod System
pub mod Tests
