-- ===== src/Migration/Executor/Success.antt =====
-- When ExecuteMigration succeeds, and how a run over several migrations stops.
use surql_go.Migration.Models.{Migration}
