-- ===== src/Ai/Tests.antt =====
-- The theorem on the engine's reactions at an engine that may act.
use brane_os.Audit
use brane_os.Audit.{Stamp}
use brane_os.Ai.{World, act_restricted, new, set_mode}

abbrev stamp : Stamp
stamp = record { tick = 7; cpu_id = 0 }

abbrev acting : World
acting = record { engine = set_mode new act_restricted; audit = Audit.new }
