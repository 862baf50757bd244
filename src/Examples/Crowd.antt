-- ===== src/Examples/Crowd.antt =====
-- Two clients of one process, whose requests are under way at the same time.
use fap2_srv.Prelude.{
  ℕ, codes, some, [], ◌∷◌, All, has, at, insert, text_key, false, get_elem?, ◌≡◌, ◌≢◌, ◌⊎◌, ◌≤◌,
  length, inr, refl, arith,
}
use fap2_srv.Server.{Server, modify}
use fap2_srv.Handler.{handle_message, with_end, dispatch, reply, catching, respond}
use fap2_srv.Threads.{
  received, buffer_size, turn, read_message, again, accept, accepts, built, starts,
}
use fap2_srv.Threads.Conversation.{origin, only, step_log}
use fap2_srv.Network.{
  Network, Traffic, still, moves, asks, reads, takes_up, works, traffic_log, opened, unread,
  pending, Whole, ask, take_up, read_reply, arrived,
}
use fap2_srv.Network.Phases.{Talked, Fits, Short}
use fap2_srv.Registry.{register, numbered, set_name}
use fap2_srv.Session.{add_context, call}
use fap2_srv.Network.Lockstep.{requests_answered}
use fap2_srv.Network.Progress.{Fatal, waiting_served}
use fap2_srv.Examples.Data.{small_fap}
use fap2_srv.Examples.Process.{
  first_in, first_runs, second_in, both_run, first_builds, first_built, first_starts, second_builds,
  second_built, second_starts, first_listed,
}

abbrev connected : Network ℕ
connected = record (opened 0) { system = both_run }

to_connected : Traffic small_fap (opened 0) connected
unfolding step_log
to_connected =
    moves
      (moves
        (moves
          (moves
            (moves (moves still (works first_in (accepts 4 refl) refl))
              (works _ (built 0 _ first_builds first_built) refl))
            (works first_runs (starts 0 first_starts) refl))
          (works second_in (accepts 5 refl) refl))
        (works _ (starts 1 second_starts) refl))
      (works both_run (built 1 _ second_builds second_built) refl)

-- Both clients ask.
abbrev first_asks : Network ℕ
first_asks = ask 4 (codes "EnvProvider GetId") connected

abbrev both_ask : Network ℕ
both_ask = ask 5 (codes "x") first_asks

to_both_ask : Traffic small_fap (opened 0) both_ask
to_both_ask =
    moves (moves to_connected (asks 4 (codes "EnvProvider GetId") refl)) (asks 5 (codes "x") refl)

first_sock : (both_run.server.sessions 0).sock ≡ 4
unfolding accept register add_context modify numbered set_name has
first_sock = refl

few : All Fits ((both_ask.callers 4).asked)
few = (omega arith, tt)

no_packets : All Short (only (λ p. p.0) 4 both_ask.system.server.sent)
unfolding only accept register add_context modify numbered set_name has
no_packets = tt

both_ask-Whole : Whole 4 to_both_ask
unfolding to_both_ask to_connected
both_ask-Whole = ((((((((tt, tt), tt), tt), tt), tt), tt), tt), tt)

waiting_served_example :
    ((v : Network ℕ) × Traffic small_fap both_ask v × ((v.callers 4).waits ≡ false))
    ⊎ Fatal small_fap 0 (arrived both_ask 0 buffer_size) both_ask.system.server
waiting_served_example =
    waiting_served small_fap 0 0 4 to_both_ask both_ask-Whole first_listed first_sock
      (few, no_packets) refl

-- The second session's message is handled first, then the other one, and its client reads.
abbrev second_told : Server ℕ
second_told = (handle_message small_fap 1 (codes "x") both_run.server).1

abbrev second_handled : Network ℕ
second_handled = take_up 1 231 second_told both_ask

abbrev first_told : Server ℕ
first_told = (handle_message small_fap 0 (codes "EnvProvider GetId") second_told).1

abbrev first_handled : Network ℕ
first_handled = take_up 0 231 first_told second_handled

second_listed : get_elem? both_run.running 1 ≡ some 1
unfolding accept
second_listed = refl

second_there : arrived both_ask 1 231 ≢ []
unfolding accept register add_context modify numbered set_name has
second_there e = absurd (cc)

first_there : arrived second_handled 0 231 ≢ []
unfolding handle_message with_end dispatch reply at insert accept register add_context modify
    numbered set_name has
first_there e = absurd (cc)

second_turn :
    turn small_fap 1 (received (arrived both_ask 1 231)) both_run.server ≡ again second_told
unfolding turn read_message handle_message with_end dispatch reply at insert accept register
    add_context modify numbered set_name has
second_turn = refl

first_turn :
    turn small_fap 0 (received (arrived second_handled 0 231)) second_told ≡ again first_told
unfolding turn read_message handle_message with_end dispatch reply at insert call catching respond
    accept register add_context modify numbered set_name has
first_turn = refl

to_first_handled : Traffic small_fap (opened 0) first_handled
to_first_handled =
    moves
      (moves to_both_ask
        (takes_up 1 1 231 second_told second_listed (omega arith) second_there second_turn))
      (takes_up 0 0 231 first_told first_listed (omega arith) first_there first_turn)

packets_told : first_told.sent ≡ (5, codes "E Context not found") ∷ (4, codes "O 0") ∷ []
unfolding handle_message with_end dispatch reply at insert call catching respond accept register
    add_context modify numbered set_name has
packets_told = refl

to_read : unread first_handled 4 ≢ []
unfolding only
to_read e = absurd (cc (rw packets_told at e))

first_request-Fits : All Fits ((first_handled.callers 4).asked)
first_request-Fits = (omega arith, tt)

first_packets-Short : All Short (only (λ p. p.0) 4 first_told.sent)
unfolding only
first_packets-Short = rw packets_told (omega arith, tt)

to_first_read : Traffic small_fap (opened 0) (read_reply 4 first_handled)
to_first_read = moves to_first_handled (reads 4 refl to_read)

second_pending : length (pending both_ask 1) ≤ 231
unfolding accept register add_context modify numbered set_name has
second_pending = omega arith

first_pending : length (pending second_handled 0) ≤ 231
unfolding handle_message with_end dispatch reply at insert accept register add_context modify
    numbered set_name has
first_pending = omega arith

first_read-Whole : Whole 4 to_first_read
unfolding to_first_read to_first_handled
first_read-Whole = (((both_ask-Whole, inr second_pending), inr first_pending), tt)

requests_answered_example :
    Talked small_fap
      ((read_reply 4 first_handled).callers 4).asked
      (only origin 4 (traffic_log small_fap to_first_read))
      ((read_reply 4 first_handled).callers 4).results
requests_answered_example =
    requests_answered small_fap 4 to_first_read first_read-Whole first_request-Fits
      first_packets-Short refl
