-- ===== src/Operations/Reply.antt =====
-- The whole of `QueueOperation` of internal/core/operations.go for a request that was made before.
use mailhearth.Operations.Tables.{Tables}
