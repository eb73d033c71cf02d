-- ===== src/Tests.antt =====
-- Runs of the model on small inputs, and each theorem with hypotheses at one of them.
mod StopTests
mod QuotaTests
mod LimitTests
mod SessionTests
mod HistoryTests
mod ReasoningTests
mod StoreTests
mod HygieneTests
mod UsageTests
mod AccountTests
mod KeyTests
mod ConcurrencyTests
