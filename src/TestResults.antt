-- ===== src/TestResults.antt =====
-- services/testRunResultsJson.ts and the test results of mqtt/index.ts: what devices report of a test,
-- in one message or in chunks, and how it is merged into the record of the test run.
pub mod Json
pub mod Chunks
pub mod Handling
