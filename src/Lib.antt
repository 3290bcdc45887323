-- ===== src/Lib.antt =====
-- CampusGig back end: the money, the order life cycle, the gigs, the reviews and the messages of a
-- marketplace for student services.
--
-- A buyer places an order for a gig and the price moves from the buyer's wallet into escrow. The
-- seller accepts or declines; delivers; the buyer accepts the delivery, or a review window and then
-- a dispute window run out. Either party may ask to cancel, the seller may ask for more time, and
-- either may file a dispute, which an administrator resolves by refunding the buyer, paying the
-- seller or splitting the price. Users deposit money and withdraw it by requests that an
-- administrator approves or rejects. Delayed jobs act at the deadlines. Sellers offer gigs, which an
-- administrator reviews before they go live and after sensitive edits; the buyer of a completed order
-- may review it once and the seller may answer once; buyers and sellers write to each other.
--
-- Files and the code they are about:
--   Db            prisma/models: rows (Db.Rows), enums (Db.Types), a table as a list of rows keyed by
--                 id (Db.Table), a Prisma transaction as a function from tables to a result with new
--                 tables or an exception (Db.Tx), and what lies outside a transaction, the job
--                 queues of src/modules/orders/infrastructure/jobs/order-jobs.scheduler.ts and the
--                 socket (Db.World). Db.Queue is about the queues.
--   Messaging     createOrGetThread and insertSystemEvent of src/modules/messaging/infrastructure/
--                 persistence/prisma-messaging.repository.ts.
--   Wallet        src/modules/wallet/infrastructure/persistence/prisma-wallet.repository.ts: the
--                 escrow moves (Wallet.Escrow), deposits and withdrawals (Wallet.Funds), and the
--                 command handlers (Wallet.Commands). Pending, Withdraw, Decided and Outcome hold
--                 what is proved of withdrawals.
--   Orders        src/modules/orders/infrastructure/persistence/prisma-orders.repository.ts, one
--                 function for each method: Place, Decide (accept, decline, auto-cancel), Deliver
--                 (deliver, update, accept), Finish (late, auto-complete, finalize), Extend, Cancel
--                 (request, decide, expire), Attention (what needs action). Returns, Stale, Versions
--                 and Deadlines are about these.
--   Disputes      src/modules/disputes: the payout rule (Payout), filing, answers and evidence
--                 (File), the verdict (Resolve).
--   Ledger        the abstract specification: an order is open or closed, escrow holds the prices of
--                 the open orders, and a step moves an order on, opens one or settles one.
--   Refinement    each operation takes a step of the ledger.
--   Marketplace   histories of calls, and what they preserve.
--   Reviews       src/modules/reviews: submission and replies (Submit), the listings and their counts
--                 (Listing), and prisma/reconcile-review-aggregates.ts (Reconcile). Aggregates,
--                 Unrated, Submitted, Replied, History, Counts and Manage are about these.
--   Gigs          src/modules/gigs: the checks of a gig's content (Validate), isSensitiveChange
--                 (Sensitive), create (Edit), update (Update), the commands that change the status
--                 (Moderate), images (Images). Status, Commands, Bounds, Attached, Created,
--                 Children and Reviewed are about these.
--   Inbox         src/modules/messaging, what users write to each other: threads, cursors and unread
--                 counts (Threads), sending and reading (Send), the listing (Messages). Read, Newest
--                 and Paging are about these.
--   Shared        src/shared: pagination (Pagination), order codes (OrderCode), the idempotency lock as
--                 interleaved calls of the cache (Idempotency, and Exclusive about it), the counter of
--                 the rate limit over a cache that is a parameter (Throttler, and Admitted about it).
--   Tests         runs on small tables.
--
-- How the code is modelled. An operation `x` is a transaction `x_tx : ... -> Tx A`, with its guards
-- in the code's order, and an action `x` that commits it and then emits the socket message and sets
-- the jobs. An exception rolls the transaction back, so no tables come with it. `Env` brings the
-- clock, the ids that new rows get and the next order number: `uuid 0` names the row that the
-- operation creates, `uuid 1` a new message thread, later ones the wallet transactions. Ids are
-- numbers, since the code only compares them; times are milliseconds; texts are lists of UTF-16
-- units. Balances and shares are unbounded integers: the 32-bit columns of the database can overflow
-- and the model does not. Prices are natural numbers, as the gig's validation makes them.
--
-- Transactions run one after the other. The race that the code itself guards against, two decisions
-- on one withdrawal, is modelled by `finish_approval` and `finish_rejection`, which take the row that
-- was read earlier. Reads that stand just before a transaction (the gig of placeOrder) and
-- createOrGetThread, which writes through its own connection, are part of the transaction here.
-- The recursions are structural. The digits of a number are taken on fuel, one more than the number,
-- which the read-back of an order code shows to be enough.
--
-- Reviews, gigs and the inbox have tables of their own (Reviews.Rows, Gigs.Rows, Inbox.Rows): of the
-- rows that they share with orders each keeps its own columns, so the columns of one gig or message
-- stand in several records. A handler there is a function to an `Outcome`, its value or the exception
-- that it throws, and calls run one after the other. An average is a fraction, sum over twice the
-- count. `orderBy` is an insertion sort, ids order like numbers, and a number in a request that is
-- negative or has a fraction is `none`. The case-insensitive search in the text of a review is a
-- parameter of the listing.
--
-- Not modelled: descriptions and JSON payloads, foreign keys (the rows that a deletion in the
-- database takes along included; the code under src/ deletes no order, user or gig), projections to
-- API items, the admin activity log, the event bus, caches, file storage, controllers and
-- configuration. Setting or removing a job and emitting a message do not fail here. The listings of
-- orders, of wallets and of gigs, the public search for gigs, users, categories, wishlists,
-- notifications, the dashboard, statistics and the shared infrastructure are other parts of the
-- program, which the operations above do not call.
pub mod Prelude
pub mod Db
pub mod Messaging
pub mod Wallet
pub mod Ledger
pub mod Orders
pub mod Disputes
pub mod Refinement
pub mod Marketplace
pub mod Reviews
pub mod Gigs
pub mod Inbox
pub mod Shared
pub mod Tests
