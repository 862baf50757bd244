-- ===== src/Examples/Shared.antt =====
-- A session that is attached to another one.
use fap2_srv.Prelude.{ℕ, codes, at, some, ◌≡◌, ◌≢◌, refl, text_key, arith}
use fap2_srv.Server.{Server, update}
use fap2_srv.Session.{call}
use fap2_srv.Session.Owned.{Owned}
use fap2_srv.Handler.{handle_message, with_end, dispatch, catching, respond}
use fap2_srv.Handler.Redirected.{attached_stays}
use fap2_srv.Examples.Data.{small_fap, two_sessions, young_session}

abbrev one_attached : Server ℕ
one_attached = record two_sessions {
  sessions = update two_sessions.sessions 1 (record young_session { attached = some 0 });
}

one_attached-Owned : Owned one_attached
unfolding at
one_attached-Owned = record { self = λ b c k e. ground arith }

apart : ◌≢◌ {A = ℕ} 0 1
apart = λ h. absurd (omega (arith, h))

attached_stays_example :
    let t = (handle_message small_fap 1 (codes "EnvProvider AttachEnv,1,1") one_attached).1 in
    ((t.sessions 1).attached ≡ some 0) × ((t.sessions 1).env ≡ (one_attached.sessions 1).env)
attached_stays_example =
    attached_stays small_fap 1 0 (codes "EnvProvider AttachEnv,1,1") one_attached one_attached-Owned
      refl apart

-- The same message attaches the other session instead.
redirected :
    ((handle_message small_fap 1 (codes "EnvProvider AttachEnv,1,1") one_attached).1.sessions
      0).attached
    ≡ some 1
unfolding handle_message with_end dispatch call at catching respond
redirected = refl
