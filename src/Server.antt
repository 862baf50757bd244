-- ===== src/Server.antt =====
-- The state of the server process, and code that may throw as a state and exception monad.
-- Session objects live on a heap and are never freed, as in server/sclient.cpp; an address that
-- was not handed out yet holds a blank object.
pub mod Keeps
pub mod Related
use fap2_srv.Prelude.{ℕ, ◌==◌, if◌then◌else◌, Text, Map, Option, none, some, List, [], ◌∷◌, ◌++◌}
use fap2_srv.Fap.{Outcome, ok, threw}

-- A pointer to an MIface: a session (its EnvProvider base) or an object of the fap2 library.
pub data Iface : Type 0 where
  session : ℕ → Iface
  extern : ℕ → Iface

-- class SessionClient (server/sclient.h). A context may hold a null pointer.
pub record Session : Type 0 where
  pub name : Text
  pub id : ℕ
  pub sock : ℕ
  pub env : Option ℕ
  pub ctx : Map Text (Option Iface)
  pub attached : Option ℕ

pub record Server (W : Type 0) : Type 0 where
  -- the heap of sessions, and the addresses handed out so far
  pub sessions : ℕ → Session
  pub count : ℕ
  -- SessionClient::sClients
  pub clients : List ℕ
  pub world : W
  -- what was sent: the socket and the bytes, oldest first
  pub sent : List (ℕ × Text)
  -- the sockets that were closed, oldest first
  pub closed_socks : List ℕ

abbrev pub update : {A : Type 0} → (ℕ → A) → ℕ → A → ℕ → A
update f a v b = if a == b then v else f b

abbrev pub Exec : Type 0 → Type 0 → Type 0
Exec W A = Server W → Outcome A × Server W

module _ {W A : Type 0} where
  abbrev pub pure : A → Exec W A
  pure a s = (ok a, s)

  abbrev pub throw : Text → Exec W A
  throw e s = (threw e, s)

  -- A call into the fap2 library.
  unfoldable pub lift : (W → Outcome A × W) → Exec W A
  lift m s = let (r, w) = m s.world in (r, record s { world = w })

abbrev pub after : {W A B : Type 0} → Outcome A × Server W → (A → Exec W B) → Outcome B × Server W
after (ok a, s) f = f a s
after (threw e, s) f = (threw e, s)

infixl 5 ◌>>=◌ ◌>>◌
abbrev pub ◌>>=◌ : {W A B : Type 0} → Exec W A → (A → Exec W B) → Exec W B
◌>>=◌ m f s = after (m s) f

abbrev pub ◌>>◌ : {W B : Type 0} → Exec W (Unit {0}) → Exec W B → Exec W B
m >> k = m >>= λ _. k

-- Changes one session object.
unfoldable pub modify : {W : Type 0} → ℕ → (Session → Session) → Exec W (Unit {0})
modify a f s = (ok tt, record s { sessions = update s.sessions a (f (s.sessions a)) })
