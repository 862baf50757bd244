-- ===== src/Served.antt =====
-- The client of client/bclient.cpp with a session of server/sclient.cpp at the other end of its
-- socket: the bytes that the client sends are received by the session's thread in one piece, and
-- what this sends back is a stream of bytes. The client waits for each reply.
pub mod Requests
pub mod Overlong
pub mod Talk
pub mod Nodes
pub mod Again
pub mod Root
use fap2_srv.Prelude.{
  ℕ, pos, if◌then◌else◌, Text, Option, none, some, List, [], ◌∷◌, ◌++◌, Bool, true, false, length,
  take, drop,
}
use fap2_srv.Fap.{Fap}
use fap2_srv.Server.{Server}
use fap2_srv.Threads.{Event, received, closed, Turn, again, ended, terminated, undefined, turn}
use fap2_srv.Client.{Net}

-- The server, the bytes on their way to the client, and whether the connection is open at the
-- server's end.
pub record Line (W : Type 0) : Type 0 where
  pub server : Server W
  pub inbox : Text
  pub up : Bool

-- The bytes of the packets.
abbrev pub bytes_of : List (ℕ × Text) → Text
bytes_of [] = []
bytes_of ((sock, bytes) ∷ rest) = bytes ++ bytes_of rest

-- What a round of the session's loop makes of the line.
abbrev pub carried : {W : Type 0} → Line W → Turn W → Line W
carried n (again t) = record n {
  server = t;
  inbox = n.inbox ++ bytes_of (drop (length n.server.sent) t.sent);
}
carried n (ended t) = record n { server = t; up = false }
carried n (terminated what t) = record n { server = t; up = false }
carried n undefined = record n { up = false }

module _ {W : Type 0} (fap : Fap W) (a : ℕ) where
  unfoldable pub line_send : Text → Line W → Bool × Line W
  unfolding turn
  line_send text n =
      if n.up then (true, carried n (turn fap a (received text) n.server)) else (false, n)

  -- A read gives what is there up to the size of the buffer, and nothing once the server is gone.
  abbrev pub line_recv : ℕ → Line W → Option Text × Line W
  line_recv size n = (some (take size n.inbox), record n { inbox = drop size n.inbox })

  -- The socket calls of a client that is connected to the session.
  abbrev pub line : Net (Line W)
  line = record {
    socket = λ n. (pos 3, n);
    resolve = λ host n. (true, n);
    connect = λ sock n. (true, n);
    send = λ sock text n. line_send text n;
    recv = λ sock size n. line_recv size n;
    close = λ sock n. carried n (turn fap a closed n.server);
  }
