-- ===== src/Examples/Sessions.antt =====
-- Messages to two sessions.
use fap2_srv.Prelude.{
  ℕ, ◌≤◌, codes, find_first_of, has, at, print_int, false, none, some, [], ◌∷◌, ◌≡◌, refl, arith,
  text_key, int_max,
}
use fap2_srv.Requests.{req_separator}
use fap2_srv.Fap.{ok}
use fap2_srv.Server.{extern, Server, lift}
use fap2_srv.Session.{
  add_context, context_owner, get_context, get_id, provide, create_env, call, uid,
}
use fap2_srv.Session.Attach.{attach_by_get_id}
use fap2_srv.Session.Envs.{EnvFate, create_env-Fate}
use fap2_srv.Handler.{handle_message}
use fap2_srv.Handler.Answers.{Answered, handle_message-Answered}
use fap2_srv.Handler.Isolation.{Isolated, handle_message-Isolated}
use fap2_srv.Handler.Repeat.{Returns}
use fap2_srv.Examples.Data.{small_fap, two_sessions, two_sessions-Owned}

handle_message-Answered_example :
    Answered small_fap 0
      (codes "u2 ping")
      two_sessions
      (handle_message small_fap 0 (codes "u2 ping") two_sessions)
handle_message-Answered_example = handle_message-Answered small_fap 0 (codes "u2 ping") two_sessions

separator_found : find_first_of req_separator (codes "root get") 0 ≡ some 4
unfolding find_first_of
separator_found = refl

old_root : get_context 0 (codes "root") two_sessions ≡ some (extern 1)
unfolding get_context context_owner at
old_root = refl

young_root : get_context 1 (codes "root") two_sessions ≡ some (extern 1)
unfolding get_context context_owner at
young_root = refl

-- The state behind a call of the library.
abbrev called : Server ℕ
called = record two_sessions { world = 10 }

root_returns :
    call small_fap (extern 1) (codes "get") two_sessions ≡ (ok (some (extern 2), []), called)
unfolding call lift
root_returns = refl

young_lacks : has (uid small_fap (extern 2) called) (called.sessions 1).ctx ≡ false
unfolding uid has print_int
young_lacks = refl

handle_message-Isolated_example :
    Isolated 1
      (context_owner two_sessions.sessions 1)
      two_sessions
      (handle_message small_fap 1 (codes "EnvProvider AttachEnv,1,0") two_sessions).1
handle_message-Isolated_example =
    handle_message-Isolated small_fap 1 (codes "EnvProvider AttachEnv,1,0") two_sessions
      two_sessions-Owned

leaf-Returns : Returns small_fap 1 2 (codes "get") (codes "u2")
unfolding print_int
leaf-Returns = record { call = λ w. refl; uid = λ w. refl }

young_new : has (codes "u2") (two_sessions.sessions 1).ctx ≡ false
unfolding has
young_new = refl

create_env-Fate_example :
    EnvFate small_fap 1
      (codes "chromo.xml")
      two_sessions
      (create_env small_fap 1 (codes "chromo.xml") two_sessions)
create_env-Fate_example = create_env-Fate small_fap 1 (codes "chromo.xml") two_sessions

small_id : 0 ≤ int_max
small_id = omega arith

attach_by_get_id_example :
    let t = provide small_fap 1 (codes "AttachEnv") (get_id 0 two_sessions ∷ []) two_sessions in
    (t.0 ≡ ok (none, []))
    × (get_context 1 (codes "u2") t.1 ≡ some (extern 2))
    × (get_context 1 (codes "u7") (add_context 0 (codes "u7") (some (extern 7)) t.1).1
        ≡ some (extern 7))
unfolding at
attach_by_get_id_example =
    attach_by_get_id small_fap 1 0 (codes "u2") (codes "u7") (some (extern 7)) two_sessions []
      (1 ∷ []) refl refl small_id
