-- ===== src/ModLog/Commit.antt =====
-- What a commit does with the undo log (tinySTM/src/mod_log.c).
use tiny_stm_reval.Prelude.{List}
