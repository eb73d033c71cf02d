-- ===== src/Lib.antt =====
-- A model of the core of the Microsoft 365 Copilot to OpenAI proxy, and what is proved of it.
--
-- The program is a FastAPI service (src/m365_copilot_openai_proxy) that answers OpenAI and
-- Anthropic requests from Copilot conversations. Its routes read and write a few stores and
-- guards that live in the process; those are what this library models, one module for each file:
-- - StopSequences (stop_sequences.py): `normalize_stop`, `apply_stop`, `_held_suffix_len`
--   and `StopSequenceTrimmer`; children treat the cut, the hold-back and a whole streamed
--   turn.
-- - LoginGuard (login_guard.py): `LoginRateLimiter`; Log compares it with the bare list of
--   events.
-- - RateLimit (ratelimit.py): `TokenBucket` and `RateLimiterRegistry`; in exact arithmetic,
--   where the source rounds floats.
-- - ConversationQuota (conversation_quota.py): `ConversationQuotaStore`; the float rounding
--   of the percent is a parameter.
-- - Session (session_store.py): `PersistentSession`: turns, issued responses and the
--   reservations of their continuations; Valid holds the invariant and any sequence of
--   calls, Linear and Spent the continuations, Outputs the admitted tool outputs.
-- - History (history_index.py): `_chain` and `HistoryDigestIndex`, with SHA-256 and UTF-8
--   as parameters; Continue is about the next turn, Owned and Shared about histories of
--   several sessions, Recorded and Tenants about whose sessions a match returns, Bounded
--   about the size.
-- - Reasoning (reasoning.py, reasoning_stream.py): `ReasoningCollector.add` and
--   `AnthropicContentStream`; Protocol holds the block protocol as a reader, Content and
--   Collect are about the texts.
-- - SessionStore (session_store.py): `PersistentSessionStore` without loading and file
--   content; Calls holds any sequence of calls, Bounded and Evict are about the LRU bound,
--   Pruned about `prune`, Flushed about the writes and the flush timer.
-- - ToolHygiene (tool_hygiene.py): the guards on tool calls and tool results; Dedupe is
--   about what the two deduplications keep, Orphans about the complaints.
-- - UsageStore (usage_store.py): the token estimate, the model buckets and
--   `UsageStore.record` and `clear`; Sums is about the totals, Buckets about the number of
--   models.
-- - AccountStore (account_store.py): `Account`, and `AccountStore` without its files.
--   Identity, Protocol, Tokens, Personal, Slots, Grants and ConsumerAuth hold the methods
--   on an account, Status its `token_status`, Pool the store, Calls any sequence of calls;
--   Kept and Invariant carry what each method keeps to runs, Epochs and Stale are about the
--   protocol epoch, Ports and Apart about the browser ports, Credentials, Binding and
--   Pairing about what is stored with a token.
-- - KeyStore (key_store.py): `ApiKey`, and in Table `KeyStore` without its files; Indexed
--   compares an index with a scan, Consistent is about what the operations keep, Resolved
--   is about what secrets and logins resolve to.
-- - AccountConcurrency (account_concurrency.py): `AccountConcurrency.hold` as steps of the
--   turns, with any interleaving as a list of events; Counted is about the counts, Gates
--   and Permits about the limit.
--
-- Shared: Prelude has the tests, lists and texts, Dict Python's `dict` with its insertion order.
--
-- Conventions. A method is a function from the object's record to the new record, beside its
-- result. `time.time()`, `time.monotonic()` and `uuid.uuid4()` are arguments, the times in
-- ticks of a clock, in AccountStore in whole seconds; the rounding of floats is not modelled.
-- A Python `int` that cannot be negative is a natural number, a `str` the list of its code
-- points. A flush timer of SessionStore is a number, and its firing a call; that it fires in
-- time is the clock's part and not modelled. Loops are recursion on their list; the `while`
-- loops that drop old entries count down the surplus, which their size lemmas show to be
-- enough. The search for a browser port has as fuel one more than the number of used ports,
-- since a step past a used port leaves fewer of them from there on. No fuel can run out. Locks
-- are not modelled: the calls on one object are a sequence, as its lock makes them. Functions
-- of other modules and of libraries that a module calls are its parameters, as the record
-- `Outside` of AccountStore.
--
-- Not modelled: the HTTP routes and templates, the browser and the upstream protocols, and the
-- files on disk.
pub mod Prelude
pub mod Dict
pub mod AccountStore
pub mod AccountConcurrency
pub mod KeyStore
pub mod ConversationQuota
pub mod History
pub mod LoginGuard
pub mod RateLimit
pub mod Reasoning
pub mod Session
pub mod SessionStore
pub mod StopSequences
pub mod ToolHygiene
pub mod UsageStore
mod Tests
