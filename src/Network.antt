-- ===== src/Network.antt =====
-- Any number of clients of client/bclient.cpp, with the whole process of server/sclient.cpp at the
-- other ends of their sockets. Each client is in Request or between two calls of it, and the steps of
-- the clients and of the threads come in any order.
pub mod Streams
pub mod Phases
pub mod Steady
pub mod Lockstep
pub mod Progress
use fap2_srv.Prelude.{
  ℕ, ◌+◌, ◌≤◌, ◌==◌, ◌⊎◌, Text, some, List, [], ◌∷◌, ◌++◌, Bool, true, false, take, drop, length,
  get_elem?, ◌≡◌, ◌≢◌,
}
use fap2_srv.Fap.{Fap}
use fap2_srv.Server.{Server, update}
use fap2_srv.Threads.{received, buffer_size, turn, again, System, Step, boot}
use fap2_srv.Threads.Conversation.{Handling, taken, only, step_log}
use fap2_srv.Client.{Result, buf_size, take_response}
use fap2_srv.Served.{bytes_of}

-- A client: what it has given to Request, what Request has given back, and whether it is between the
-- send and the recv of Request.
pub record Caller : Type 0 where
  pub asked : List Text
  pub results : List (Result (Bool × Text))
  pub waits : Bool

-- The process, the clients by the sockets of their connections at the server's end, the bytes that
-- are on their way to the server, and how many of those sent back each client has read.
pub record Network (W : Type 0) : Type 0 where
  pub system : System W
  pub callers : ℕ → Caller
  pub inbound : ℕ → Text
  pub read : ℕ → ℕ

-- The bytes that the server has sent on a socket, and those of them that are still to be read.
abbrev pub stream : ℕ → List (ℕ × Text) → Text
stream k sent = bytes_of (only (λ p. p.0) k sent)

abbrev pub unread : {W : Type 0} → Network W → ℕ → Text
unread y k = drop (y.read k) (stream k y.system.server.sent)

-- The send of Request, which succeeds.
abbrev pub ask : {W : Type 0} → ℕ → Text → Network W → Network W
ask k text y =
    let c = y.callers k in
    record y {
      callers = update y.callers k (record c { asked = c.asked ++ text ∷ []; waits = true });
      inbound = update y.inbound k (y.inbound k ++ text);
    }

-- The recv of Request, which gives what is there up to the size of its buffer, and the rest of it.
abbrev pub read_reply : {W : Type 0} → ℕ → Network W → Network W
read_reply k y =
    let c = y.callers k in
    let bytes = take buf_size (unread y k) in
    record y {
      callers =
          update y.callers k
            (record c { results = c.results ++ take_response (some bytes) ∷ []; waits = false });
      read = update y.read k (y.read k + length bytes);
    }

-- The bytes that are on the socket of a session.
abbrev pub pending : {W : Type 0} → Network W → ℕ → Text
pending y a = y.inbound ((y.system.server.sessions a).sock)

-- What the thread of a session gets when it calls recv, which is the start of what is there.
abbrev pub arrived : {W : Type 0} → Network W → ℕ → ℕ → Text
arrived y a n = take n (pending y a)

-- A round of a session's loop that has taken bytes from its socket.
abbrev pub take_up : {W : Type 0} → ℕ → ℕ → Server W → Network W → Network W
take_up a n t y =
    let k = (y.system.server.sessions a).sock in
    record y {
      system = record y.system { server = t };
      inbound = update y.inbound k (drop n (y.inbound k));
    }

pub data Move {W : Type 0} (fap : Fap W) (y : Network W) : Network W → Type 0 where
  asks : (k : ℕ) (text : Text) → (y.callers k).waits ≡ false → Move fap y (ask k text y)
  reads : (k : ℕ) → (y.callers k).waits ≡ true → unread y k ≢ [] → Move fap y (read_reply k y)
  takes_up :
      (a i n : ℕ) (t : Server W)
      → get_elem? y.system.running i ≡ some a
      → n ≤ buffer_size
      → arrived y a n ≢ []
      → turn fap a (received (arrived y a n)) y.system.server ≡ again t
      → Move fap y (take_up a n t y)
  -- any other step of the process: a connection, a constructor, a thread that starts or ends, a
  -- round in which recv fails
  works :
      (x : System W) (st : Step fap y.system x)
      → step_log fap st ≡ []
      → Move fap y (record y { system = x })

-- A run of the network.
pub data Traffic {W : Type 0} (fap : Fap W) (y : Network W) : Network W → Type 0 where
  still : Traffic fap y y
  moves : {u v : Network W} → Traffic fap y u → Move fap u v → Traffic fap y v

module _ {W : Type 0} (fap : Fap W) where
  -- The messages that the threads have handled.
  unfoldable pub move_log : {y z : Network W} → Move fap y z → List (Handling W)
  move_log (asks k text idle) = []
  move_log (reads k waits there) = []
  move_log {y} (takes_up a i n t run few there e) =
      taken a y.system.server (received (arrived y a n))
  move_log (works x st untold) = []

  unfoldable pub traffic_log : {y z : Network W} → Traffic fap y z → List (Handling W)
  unfolding move_log
  traffic_log still = []
  traffic_log (moves r m) = traffic_log r ++ move_log m

-- What the sessions with a socket have taken from it was all that was there, each time.
abbrev pub WholeMove : {W : Type 0} {fap : Fap W} {y z : Network W} → ℕ → Move fap y z → Type 0
WholeMove k (asks j text idle) = Unit {0}
WholeMove k (reads j waits there) = Unit {0}
WholeMove {y = y} k (takes_up a i n t run few there e) =
    (((y.system.server.sessions a).sock == k) ≡ false) ⊎ (length (pending y a) ≤ n)
WholeMove k (works x st untold) = Unit {0}

abbrev pub Whole : {W : Type 0} {fap : Fap W} {y z : Network W} → ℕ → Traffic fap y z → Type 0
Whole k still = Unit {0}
Whole k (moves r m) = Whole k r × WholeMove k m

-- A process that starts, and clients that have done nothing.
abbrev pub opened : {W : Type 0} → W → Network W
opened w = record {
  system = boot w;
  callers = λ k. record { asked = []; results = []; waits = false };
  inbound = λ k. [];
  read = λ k. 0;
}
