-- ===== src/Examples/Masked.antt =====
-- A message to a session that does not see the other one.
use fap2_srv.Prelude.{ℕ, Text, codes, Bool, true, ◌==◌, some, [], ◌≡◌, refl}
use fap2_srv.Server.{Session}
use fap2_srv.Session.Masked.{mask, masked}
use fap2_srv.Session.{context_owner}
use fap2_srv.Handler.{handle_message}
use fap2_srv.Handler.Masked.{handle_message-mask}
use fap2_srv.Examples.Data.{small_fap, two_sessions, two_sessions-Owned, young_session}

abbrev first_only : ℕ → Bool
first_only b = b == 0

-- Another session in place of the second one.
abbrev others : ℕ → Session
others b = record young_session { env = some 7; ctx = []; attached = some 0 }

first_sees : first_only (context_owner two_sessions.sessions 0) ≡ true
unfolding context_owner
first_sees = refl

abbrev make_env : Text
make_env = codes "EnvProvider CreateEnv,1,chromo"

handle_message-mask_example :
    handle_message small_fap 0 make_env (mask first_only others two_sessions)
    ≡ masked first_only others (handle_message small_fap 0 make_env two_sessions)
handle_message-mask_example =
    handle_message-mask small_fap first_only others 0 refl make_env two_sessions two_sessions-Owned
      first_sees
