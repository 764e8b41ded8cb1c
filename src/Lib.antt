-- ===== src/Lib.antt =====
-- Mock Pontes: a mock of the Eurosystem's Pontes settlement service. Wallets hold cash; a settlement
-- is a draft that someone opens and someone else approves, which moves cash between wallets and
-- records a transaction.
--
-- The parts, and how they interact, with source paths under src/ of the repository:
--   State/Types       the records of state/mock-store.ts and state/dcw.ts
--   State/Dcw         state/dcw.ts: the pure operations on one wallet (`with_debit` is `withDebit`,
--                     `can_debit` is `canDebit`, and so on), with the rights in Dcw/Rights and the
--                     arithmetic in Dcw/Balances
--   State/Record      state/memory-store.ts: the state of `MemoryStore`, its cache, and the operations
--                     on the whole of it
--   State/Store       state/memory-store.ts: the operations on wallets, transactions, drafts and
--                     sequences; what they leave alone is in Store/Frame
--   Workflow          workflows/workflow.ts: the abstract class `Workflow` as a record of what a
--                     subclass overrides (Workflow/Class), with its methods as functions of that
--                     record; a `Moment` is what one call reads from outside, the clock and a UUID
--   Kinds             workflows/transfer.ts, payment.ts, direct-rtgs.ts, pfod.ts and funding.ts: the
--                     concrete workflows, all instances of the record
--   Xvp               workflows/xvp.ts and xvp-commitment.ts: hash-linked payments. `pay` awaits once
--                     between its checks and its writes, so it is two steps of the model. The GET
--                     route of routes/xvp.ts that discloses the keys is in Xvp/Disclosure
--   State/Identifiers `nextId`, and state/draft-id.ts
--   State/Participant state/participant-wallet.ts; Xvp/Wallet has what routes/xvp.ts does with it
--   Window            state/business-window.ts, with the validation of an update in Window/Update and
--                     http/business-window-guard.ts, the lookup of http/business-window-rules.ts and
--                     `segmentsMatch` of http/not-implemented.ts in Window/Guard; Window/Views has the
--                     endpoints of routes/business-window.ts and admin/business-window.ts
-- A workflow calls the store, and the store calls the wallet operations; `Exec` is the monad of their
-- methods, a state passed along beside a result, where a throw keeps the writes before it. What every
-- subclass has to respect is the interface `IsLawful` in Workflow/Laws, and Kinds/Lawful fills it.
--
--   State/Recovery    the keys that the store writes to its cache, read back by `hydrate`; State/Store/Sync
--                     has what every write leaves in the cache
--   Http              what the routers share: the identity of a request, replies, transitions. Http/Json
--                     has JSON values, Http/Validation http/request-validation.ts with its patterns in
--                     Http/Patterns, Http/ErrorResponse http/error-response.ts (what its
--                     normalisation keeps is in ErrorResponse/Kept)
--   Routes            the handlers of routes/: Transfers, Funding, DirectRtgs, Pfod, Payments
--                     (bridge-payments.ts), Wallets and Xvp, each from the fields of a request to the reply
--                     and the store it leaves
--   Profiles          auth/profile-enforcement.ts and auth/profile-authorization-middleware.ts
-- A request is a record of the fields that the handler reads, each absent or a text; it comes after
-- authentication, whose outcome is `AuthContext`. Replies keep the status and the fields of the body
-- that are not constants of the code.
--
-- `Base` has the shared names and lists, texts and maps. A JavaScript `Map` is an association list in
-- order of insertion. `Platform` holds what the code takes from the runtime, doubles and dates, as
-- parameters; `IsExact` states what IEEE doubles with two decimals do on amounts of whole cents up to
-- a limit. `Examples` instantiates both by a machine on numbers of cents up to 1000, and applies the
-- theorems there. No definition runs on fuel: every loop is structural.
--
-- A cache write is taken to have finished when the operation that issues it returns, and a failure of
-- the cache is only logged by the code, so the model has none. Times that one call reads more than
-- once are one reading of the clock.
--
-- The timeout of an XvP is a double, and a deadline that is no date throws, as `toISOString` does; the
-- model takes every other instant for one that has a text. JSON texts and SHA-256 are the parameter
-- `Services`, paths of requests the parameter `Paths`, and the window rules, which the code parses from
-- the vendored specification, an argument. The schemas of that specification and their compiler are
-- `Schemas`, the data file of entities with hashing and letter case `Directory`, the issuance wallet of
-- the environment `Issuance`, and the network name and the length of the PFoD window arguments. What runs under the lock of one XvP is one step.
--
-- Not modelled: authentication and certificates, which call cryptographic libraries; the cache
-- backends; the lock of workflows/xvp-lock.ts; the registry of routes, the health route and the routes
-- that hand out the entities; the reset of admin/reset.ts; the user interface, the logger and the start-up code. `assertCanDebit` of
-- workflows/workflow.ts has no caller in the repository.
pub mod Base
pub mod Platform
pub mod Result
pub mod Exec
pub mod State
pub mod Workflow
pub mod Kinds
pub mod Examples
pub mod Xvp
pub mod Http
pub mod Routes
pub mod Window
pub mod Profiles
