-- ===== src/Server/Outbound/Tests.antt =====
-- Frames and turns of the write goroutine, of which the second fails to write.
use prm.Prelude.{true, false, [], ◌∷◌, List}
use prm.Server.Outbound.{new_outbound}
use prm.Server.Outbound.Accounting.{
  Op, frame, turn, run, frames_of, fails, Accounted, run-Accounted,
}

abbrev ops : List Op
ops = frame (1 ∷ []) ∷ turn true ∷ frame (2 ∷ []) ∷ turn false ∷ frame (3 ∷ []) ∷ []

run-Accounted_example : Accounted (run new_outbound ops) (fails false ops) (frames_of ops)
run-Accounted_example = run-Accounted ops
