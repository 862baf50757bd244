-- ===== src/Threads.antt =====
-- server/sserver.cpp and server/sclient.cpp: accepted connections, the constructor of a session and
-- its thread, as steps of one system. A message is one step, and so is each critical section.
pub mod Invariant
pub mod Steps
pub mod Ids
pub mod Buffer
pub mod Building
pub mod Ending
pub mod Conversation
pub mod Lasting
pub mod Handles
use fap2_srv.Prelude.{
  ℕ, suc, ◌+◌, ◌-◌, ◌==◌, if◌then◌else◌, Text, codes, c_string, take, Option, none, some, List, [],
  ◌∷◌, ◌++◌, Bool, true, false, length, replicate, get_elem?, erase_at, ◌≡◌,
}
use mathlib.Core.Option
use fap2_srv.Fap.{Fap, Outcome, ok, threw}
use fap2_srv.Server.{Iface, session, Session, Server, update}
use fap2_srv.Session.{provider_key, add_context}
use fap2_srv.Handler.{handle_message}
use fap2_srv.Registry.{register, unregister}

-- sizeof buffer and sizeof message in HandleSessionClient
abbrev pub buffer_size : ℕ
buffer_size = 231

abbrev pub message_size : ℕ
message_size = 256

-- What recv gave: n > 0 bytes, n == 0, n < 0.
pub data Event : Type 0 where
  received : Text → Event
  closed failed : Event

-- The buffer after memset and recv, and the text that snprintf copies out of it; `none` if the
-- buffer holds no NUL, so that memory behind it is read.
unfoldable pub read_message : Text → Option Text
unfolding c_string
read_message bytes =
    Option.map (take (message_size - 1))
      (c_string (bytes ++ replicate (buffer_size - length bytes) 0))

-- A round of the loop of HandleSessionClient: the loop goes on, the thread ends, an exception
-- leaves the thread and ends the process, or the behaviour is undefined.
pub data Turn (W : Type 0) : Type 0 where
  again ended : Server W → Turn W
  terminated : Text → Server W → Turn W
  undefined : Turn W

abbrev pub settle : {W : Type 0} → Outcome (Unit {0}) × Server W → Turn W
settle (ok done, s) = again s
settle (threw what, s) = terminated what s

-- close(c->mSock)
unfoldable pub close_sock : {W : Type 0} → ℕ → Server W → Server W
close_sock a s = record s { closed_socks = s.closed_socks ++ (s.sessions a).sock ∷ [] }

unfoldable pub turn : {W : Type 0} → Fap W → ℕ → Event → Server W → Turn W
unfolding read_message handle_message unregister close_sock
turn fap a (received bytes) s = elim (read_message bytes) [
  | none ↦ undefined
  | some message ↦ settle (handle_message fap a message s)
]
turn fap a closed s = elim (unregister a (close_sock a s)) [ none ↦ undefined | some t ↦ ended t ]
turn fap a failed s = again s

pub record System (W : Type 0) : Type 0 where
  pub server : Server W
  -- the session whose constructor the main thread is in, behind Dispatch
  pub building : Option ℕ
  -- the sessions whose thread was created and has not registered yet
  pub fresh : ℕ → Bool
  -- the sessions whose thread is in its loop
  pub running : List ℕ

-- The members that the constructor and Dispatch set; the number and the name are set by the thread.
abbrev pub new_session : ℕ → Session
new_session sock = record { name = []; id = 0; sock = sock; env = none; ctx = []; attached = none }

-- AcceptAndDispatch: accept gave a socket; the constructor, up to the call of Dispatch.
unfoldable pub accept : {W : Type 0} → ℕ → System W → System W
accept sock y =
    let s = y.server in
    record y {
      server = record s {
        sessions = update s.sessions s.count (new_session sock);
        count = suc s.count;
      };
      building = some s.count;
      fresh = update y.fresh s.count true;
    }

pub data Step {W : Type 0} (fap : Fap W) (y : System W) : System W → Type 0 where
  accepts : (sock : ℕ) → y.building ≡ none → Step fap y (accept sock y)
  -- the rest of the constructor
  built :
      (a : ℕ) (t : Server W)
      → y.building ≡ some a
      → add_context a provider_key (some (session a)) y.server ≡ (ok tt, t)
      → Step fap y (record y { server = t; building = none })
  starts :
      (a : ℕ)
      → y.fresh a ≡ true
      → Step fap y (record y {
        server = register a y.server;
        fresh = update y.fresh a false;
        running = y.running ++ a ∷ [];
      })
  goes_on :
      (a i : ℕ) (event : Event) (t : Server W)
      → get_elem? y.running i ≡ some a
      → turn fap a event y.server ≡ again t
      → Step fap y (record y { server = t })
  ends :
      (a i : ℕ) (event : Event) (t : Server W)
      → get_elem? y.running i ≡ some a
      → turn fap a event y.server ≡ ended t
      → Step fap y (record y { server = t; running = erase_at i y.running })

pub data Reach {W : Type 0} (fap : Fap W) (y : System W) : System W → Type 0 where
  here : Reach fap y y
  next : {u v : System W} → Reach fap y u → Step fap u v → Reach fap y v

-- The process as it starts, over a heap with no session handed out.
abbrev pub boot : {W : Type 0} → W → System W
boot w = record {
  server = record {
    sessions = λ a. new_session 0;
    count = 0;
    clients = [];
    world = w;
    sent = [];
    closed_socks = [];
  };
  building = none;
  fresh = λ a. false;
  running = [];
}
