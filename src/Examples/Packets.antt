-- ===== src/Examples/Packets.antt =====
-- A message in a running process.
use fap2_srv.Prelude.{
  ℕ, ◌<◌, arith, Text, codes, none, some, false, [], ◌∷◌, find_first_of, print_int, has, at, insert,
  List, ◌++◌, ◌≡◌, refl, text_key,
}
use fap2_srv.Server.{extern, lift, Server}
use fap2_srv.Handler.{catching, reply, dispatch, with_end, handle_message}
use fap2_srv.Registry.{register}
use fap2_srv.Session.{call, uid, get_context, context_owner}
use fap2_srv.Threads.{
  System, received, again, turn, read_message, accept, goes_on, Reach, here, next,
}
use fap2_srv.Threads.Conversation.{origin, only, Replies, log, Reach-Replies}
use fap2_srv.Threads.Handles.{handle_lasts}
use fap2_srv.Threads.Lasting.{Extends, Reach-Remains}
use fap2_srv.Examples.Data.{small_fap, two_sessions}
use fap2_srv.Examples.Process.{both_run, first_listed}

abbrev told : Server ℕ
told = (handle_message small_fap 0 (codes "x") both_run.server).1

refused_unknown : turn small_fap 0 (received (codes "x")) both_run.server ≡ again told
unfolding turn read_message handle_message with_end dispatch reply at has register accept insert
refused_unknown = refl

talked : Reach small_fap both_run (record both_run { server = told })
talked = next here (goes_on 0 0 (received (codes "x")) told first_listed refused_unknown)

Reach-Replies_example :
    (ps : List (ℕ × Text)) × (told.sent ≡ both_run.server.sent ++ ps)
    × Replies small_fap (log small_fap talked) ps
    × ((k : ℕ) → Replies small_fap (only origin k (log small_fap talked)) (only (λ p. p.0) k ps))
Reach-Replies_example = Reach-Replies small_fap talked

Reach-Remains_example : (1 < told.count) × Extends (both_run.server.sessions 1) (told.sessions 1)
unfolding accept handle_message with_end dispatch reply at register insert has
Reach-Remains_example = Reach-Remains small_fap 1 talked (omega arith)

-- The second of two sessions is handed an object, and then the first one calls it.
abbrev two_run : System ℕ
two_run = record {
  server = two_sessions;
  building = none;
  fresh = λ a. false;
  running = 0 ∷ 1 ∷ [];
}

abbrev handed : Server ℕ
handed = (handle_message small_fap 1 (codes "root get") two_sessions).1

abbrev pinged : Server ℕ
pinged = (handle_message small_fap 0 (codes "u2 ping") handed).1

first_pings : turn small_fap 0 (received (codes "u2 ping")) handed ≡ again pinged
unfolding turn read_message handle_message with_end dispatch call at catching has
first_pings = refl

pinged_reached :
    Reach small_fap (record two_run { server = handed }) (record two_run { server = pinged })
pinged_reached = next here (goes_on 0 0 (received (codes "u2 ping")) pinged refl first_pings)

still_alone : context_owner pinged.sessions 1 ≡ 1
unfolding handle_message with_end dispatch call at catching has context_owner
still_alone = refl

handle_lasts_example : get_context 1 (codes "u2") pinged ≡ some (extern 2)
unfolding find_first_of call lift uid has print_int get_context context_owner at
handle_lasts_example =
    handle_lasts small_fap two_run 1 3 (codes "root get") [] (extern 1) (extern 2)
      (record two_sessions { world = 10 }) refl refl refl refl (omega arith) pinged_reached
      still_alone
