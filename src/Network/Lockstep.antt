-- ===== src/Network/Lockstep.antt =====
-- Clients that call Request again and again, while the threads of all sessions run.
use fap2_srv.Prelude.{ℕ, Text, List, [], ◌++◌, All, append-nil, false, ◌≡◌, text_key}
use fap2_srv.Fap.{Fap}
use fap2_srv.Threads.Conversation.{Handling, origin, only}
use fap2_srv.Network.{
  Caller, Network, Move, asks, reads, takes_up, works, move_log, Traffic, still, moves, traffic_log,
  opened, WholeMove, Whole,
}
use fap2_srv.Network.Streams.{only-append}
use fap2_srv.Network.Phases.{Fits, Short, Phase, Talked, silent, idle, under_way, answered}
use fap2_srv.Network.Steady.{Steady, ask-Steady, read-Steady, takes-Steady, works-Steady}

module _ {W : Type 0} (fap : Fap W) where
  Move-Steady :
      {y z : Network W} (m : Move fap y z) (k : ℕ) (hs : List (Handling W))
      → WholeMove k m
      → Steady fap y k hs
      → Steady fap z k (hs ++ only origin k (move_log fap m))
  unfolding move_log only
  Move-Steady {y} (asks j text w) k hs whole s =
      rw (append-nil hs) (ask-Steady fap y j k text hs w s)
  Move-Steady {y} (reads j w there) k hs whole s =
      rw (append-nil hs) (read-Steady fap y j k hs w there s)
  Move-Steady {y} (takes_up a i n t run few there e) k hs whole s =
      takes-Steady fap a n k t y hs there whole e s
  Move-Steady {y} (works x st untold) k hs whole s =
      rw (append-nil hs) (works-Steady fap y x st k hs untold s)

  pub Traffic-Steady :
      {w : W} {z : Network W} (r : Traffic fap (opened w) z) (k : ℕ)
      → Whole k r
      → Steady fap z k (only origin k (traffic_log fap r))
  unfolding traffic_log only
  Traffic-Steady still k whole fitting = idle [] silent
  Traffic-Steady (moves r m) k whole fitting =
      rw (only-append origin k (traffic_log fap r) (move_log fap m)) (
        Move-Steady m k (only origin k (traffic_log fap r)) whole.1 (Traffic-Steady r k whole.0)
          fitting)

  idle-Talked :
      {c : Caller} {inbound sent : Text} {n : ℕ} {hs : List (Handling W)}
      → c.waits ≡ false
      → Phase fap c inbound sent n hs
      → Talked fap c.asked hs c.results
  idle-Talked w (idle sent talked) = talked
  idle-Talked w (under_way t sent talked) = absurd (cc)
  idle-Talked w (answered t sent h p m r short talked) = absurd (cc)

  -- With any number of clients, whose requests and replies are under way at the same time while
  -- the threads of all sessions run: a client that is not in Request has got, from each Request
  -- that it has made on its socket, in their order, what the message that it asked for gave in the
  -- state in which its session met it, `true` with the result or the Uid, or `false` with what
  -- went wrong, up to a NUL in it; if no request is empty, the packets sent to it have at most 512
  -- bytes, and each recv on its socket in the server took all that was there, which is at most 231
  -- bytes.
  pub requests_answered :
      {w : W} {z : Network W} (k : ℕ) (r : Traffic fap (opened w) z)
      → Whole k r
      → All Fits (z.callers k).asked
      → All Short (only (λ p. p.0) k z.system.server.sent)
      → (z.callers k).waits ≡ false
      → Talked fap (z.callers k).asked (only origin k (traffic_log fap r)) (z.callers k).results
  requests_answered k r whole fits short w = idle-Talked w (Traffic-Steady r k whole (fits, short))
