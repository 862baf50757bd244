-- ===== src/Examples/Endings.antt =====
-- The loop of a session's thread, up to the disconnect of its client.
use fap2_srv.Prelude.{codes, [], ◌∷◌, ◌++◌}
use fap2_srv.Threads.{received, failed, closed}
use fap2_srv.Threads.Ending.{session_loop, Stopped, session_loop-Stopped}
use fap2_srv.Examples.Data.{small_fap}
use fap2_srv.Examples.Process.{both_run, both_reached, first_listed}

session_loop-Stopped_example :
    Stopped small_fap 0 both_run 0 0
      ((received (codes "EnvProvider GetId,1") ∷ failed ∷ []) ++ closed ∷ [])
      (session_loop small_fap 0
        ((received (codes "EnvProvider GetId,1") ∷ failed ∷ []) ++ closed ∷ [])
        both_run.server)
session_loop-Stopped_example =
    session_loop-Stopped small_fap both_run 0 0
      (received (codes "EnvProvider GetId,1") ∷ failed ∷ []) both_reached first_listed
