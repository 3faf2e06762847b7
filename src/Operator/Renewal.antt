-- ===== src/Operator/Renewal.antt =====
-- A lost connection can be made again with a new code.
use lokifix.World.{World}
use lokifix.Operator.{Operator}
