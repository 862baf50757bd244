-- ===== src/Listen.antt =====
-- server/sserver.cpp and server/server_main.cpp: the listening socket and the loop that accepts
-- connections, as the main thread runs it. The
-- result of setsockopt is not looked at, and it is left out.
pub mod Loop
use fap2_srv.Prelude.{ℕ, Text, codes, Option, none, some, List, [], ◌∷◌, ◌++◌, Bool, true, false}
use fap2_srv.Fap.{Outcome, ok, threw}
use fap2_srv.Server.{session, Server}
use fap2_srv.Session.{provider_key, add_context}
use fap2_srv.Threads.{System, accept, boot}

-- The calls on the listening socket; `none` and `false` stand for a negative result.
pub record Sockets (N : Type 0) : Type 0 where
  pub socket : N → Option ℕ × N
  pub bind : Option ℕ → N → Bool × N
  pub listen : Option ℕ → N → Bool × N
  pub accept : Option ℕ → N → Option ℕ × N

-- class Server: mServerSock, and what was written to cerr.
pub record Listener : Type 0 where
  pub sock : Option ℕ
  pub errors : List Text

abbrev pub bind_errors : Bool → List Text
bind_errors true = []
bind_errors false = codes "Failed to bind" ∷ []

module _ {N : Type 0} (sys : Sockets N) where
  -- Server::Server, which goes on whatever fails.
  unfoldable pub new_server : N → Listener × N
  new_server n =
      let (sock, n1) = sys.socket n in
      let (bound, n2) = sys.bind sock n1 in
      let (heard, n3) = sys.listen sock n2 in
      (record { sock = sock; errors = bind_errors bound }, n3)

-- new SessionClient(sock): the whole constructor.
unfoldable pub new_session_client : {W : Type 0} → ℕ → System W → Outcome (Unit {0}) × System W
unfolding accept add_context
new_session_client sock y =
    let a = y.server.count in
    let (r, t) = add_context a provider_key (some (session a)) (accept sock y).server in
    (r, record (accept sock y) { server = t; building = none })

-- How AcceptAndDispatch goes on: with another round, or an exception has left it.
pub data Rounds (W : Type 0) : Type 0 where
  goes : System W → List Text → Rounds W
  left : Text → System W → List Text → Rounds W

abbrev pub constructed : {W : Type 0} → List Text → Outcome (Unit {0}) × System W → Rounds W
constructed errors (ok done, y) = goes y errors
constructed errors (threw what, y) = left what y errors

-- What accept gave: a socket or an error, which is only written out.
unfoldable pub accept_round : {W : Type 0} → Option ℕ → System W → List Text → Rounds W
unfolding new_session_client
accept_round none y errors = goes y (errors ++ codes "Error on accept" ∷ [])
accept_round (some sock) y errors = constructed errors (new_session_client sock y)

module _ {N W : Type 0} (sys : Sockets N) where
  -- Rounds of AcceptAndDispatch, which never ends but by an exception.
  unfoldable pub accept_and_dispatch : ℕ → Listener → System W → List Text → N → Rounds W × N
  unfolding accept_round
  accept_and_dispatch ℕ.zero l y errors n = (goes y errors, n)
  accept_and_dispatch (ℕ.suc rounds) l y errors n =
      let (got, m) = sys.accept l.sock n in
      elim (accept_round got y errors) [
        | goes y' errors' ↦ accept_and_dispatch rounds l y' errors' m
        | left what y' errors' ↦ (left what y' errors', m)
      ]

  -- main of server_main.cpp, for a number of rounds.
  unfoldable pub serve : ℕ → W → N → Rounds W × N
  unfolding new_server accept_and_dispatch
  serve rounds w n =
      let (l, m) = new_server sys n in accept_and_dispatch rounds l (boot w) l.errors m
