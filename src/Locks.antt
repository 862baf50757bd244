-- ===== src/Locks.antt =====
-- server/sthread.cpp and the critical sections of server/sclient.cpp, statement by statement: the
-- mutex, the threads that wait for it, and the statements between LockMutex and UnlockMutex.
pub mod Exclusion
pub mod Progress
pub mod Overlay
pub mod Atomic
pub mod Messages
pub mod Steps
pub mod Lookup
pub mod Order
pub mod Found
pub mod Unblocked
use fap2_srv.Prelude.{
  ℕ, zero, suc, ◌==◌, if◌then◌else◌, Text, codes, print_int, Option, none, some, List, [], ◌∷◌,
  ◌++◌, length, erase_at, ◌≡◌, ℤ, pos, negsuc, Map,
}
use fap2_srv.Server.{Iface, Session, Server, update}
use fap2_srv.Registry.{set_name, find_index, register, unregister}
use fap2_srv.Handler.{send}

-- InitMutex, from the result of pthread_mutex_init.
unfoldable pub init_mutex : ℤ → ℤ
init_mutex (pos n) = pos 0
init_mutex (negsuc n) = negsuc 0

-- LockMutex, from the result of pthread_mutex_lock.
unfoldable pub lock_mutex : ℤ → ℤ
lock_mutex (pos zero) = pos 0
lock_mutex (pos (suc n)) = negsuc 0
lock_mutex (negsuc n) = negsuc 0

-- UnlockMutex, from the result of pthread_mutex_unlock.
unfoldable pub unlock_mutex : ℤ → ℤ
unlock_mutex (pos zero) = pos 0
unlock_mutex (pos (suc n)) = negsuc 0
unlock_mutex (negsuc n) = negsuc 0

-- SessionThread::Create, from the result of pthread_create.
unfoldable pub create_thread : ℤ → ℤ
create_thread (pos zero) = pos 0
create_thread (pos (suc n)) = pos (suc n)
create_thread (negsuc n) = negsuc n

-- SessionThread::Join, from the result of pthread_join.
unfoldable pub join_thread : ℤ → ℤ
join_thread n = pos 0

-- The critical sections of a session's thread: the start of HandleSessionClient, Send, the end of
-- HandleSessionClient.
pub data Section : Type 0 where
  entering leaving : Section
  sending : Text → Section

-- Where a thread stands: before LockMutex of its first section, in its loop, behind its last
-- section, in LockMutex, or in front of a statement of a section.
pub data Point : Type 0 where
  begins in_loop gone : Point
  waits : Section → Point
  at_set_id at_set_name at_push_back at_find_index : Point
  at_erase : ℕ → Point
  at_send : Text → Point
  at_unlock : Section → Point

pub record Machine (W : Type 0) : Type 0 where
  pub server : Server W
  -- who holds sMutex
  pub owner : Option ℕ
  pub point : ℕ → Point

-- Where UnlockMutex leads to.
abbrev pub behind : Section → Point
behind entering = in_loop
behind (sending text) = in_loop
behind leaving = gone

-- The first statement behind LockMutex.
abbrev pub first_point : Section → Point
first_point entering = at_set_id
first_point (sending text) = at_send text
first_point leaving = at_find_index

-- Where a thread may call LockMutex for a section.
abbrev pub before : Section → Point
before entering = begins
before (sending text) = in_loop
before leaving = in_loop

-- What the access to the entry at an index found leads to.
abbrev pub found_at : {W : Type 0} → Server W → Option ℕ → Option (Point × Server W)
found_at s none = none
found_at s (some i) = some (at_erase i, s)

module _ {W : Type 0} where
  -- A statement of a section; `none` where the thread is at no such statement, or reads
  -- `sClients[-1]`.
  unfoldable pub statement : ℕ → Point → Server W → Option (Point × Server W)
  unfolding set_name print_int find_index send
  statement a at_set_id s = some (
    at_set_name,
    record s { sessions = update s.sessions a (record (s.sessions a) { id = length s.clients }) },
  )
  statement a at_set_name s = some (
    at_push_back,
    record s {
      sessions =
          update s.sessions a
            (set_name (codes "SessionClient n." ++ print_int (s.sessions a).id) (s.sessions a));
    },
  )
  statement a at_push_back s = some (at_unlock entering, record s { clients = s.clients ++ a ∷ [] })
  statement a at_find_index s = found_at s (find_index s.sessions (s.sessions a).id s.clients)
  statement a (at_erase i) s = some (at_unlock leaving, record s { clients = erase_at i s.clients })
  statement a (at_send text) s = some (at_unlock (sending text), (send a text s).1)
  statement a begins s = none
  statement a in_loop s = none
  statement a gone s = none
  statement a (waits w) s = none
  statement a (at_unlock w) s = none

-- What code outside of the sections may change: the environment, the contexts and the attachment of
-- each session, the state of the library, and which sockets are closed.
pub record Unlocked (W : Type 0) : Type 0 where
  pub env : ℕ → Option ℕ
  pub ctx : ℕ → Map Text (Option Iface)
  pub attached : ℕ → Option ℕ
  pub world : W
  pub closed_socks : List ℕ

abbrev pub change : {W : Type 0} → Unlocked W → Server W → Server W
change u s = record s {
  sessions = λ b. record (s.sessions b) { env = u.env b; ctx = u.ctx b; attached = u.attached b };
  world = u.world;
  closed_socks = u.closed_socks;
}

abbrev pub moved : {W : Type 0} → Machine W → ℕ → Point → Machine W
moved m a p = record m { point = update m.point a p }

pub data Micro {W : Type 0} (m : Machine W) : Machine W → Type 0 where
  -- the thread reaches LockMutex
  calls : (a : ℕ) (w : Section) → m.point a ≡ before w → Micro m (moved m a (waits w))
  -- pthread_mutex_lock returns
  locks :
      (a : ℕ) (w : Section)
      → m.point a ≡ waits w
      → m.owner ≡ none
      → Micro m (record (moved m a (first_point w)) { owner = some a })
  runs :
      (a : ℕ) (p : Point) (t : Server W)
      → statement a (m.point a) m.server ≡ some (p, t)
      → Micro m (record (moved m a p) { server = t })
  unlocks :
      (a : ℕ) (w : Section)
      → m.point a ≡ at_unlock w
      → Micro m (record (moved m a (behind w)) { owner = none })
  -- any code that runs outside of the sections
  changes : (u : Unlocked W) → Micro m (record m { server = change u m.server })

pub data Runs {W : Type 0} (m : Machine W) : Machine W → Type 0 where
  idle : Runs m m
  then : {u v : Machine W} → Runs m u → Micro u v → Runs m v

-- Every thread is in front of its first section.
abbrev pub opened : {W : Type 0} → Server W → Machine W
opened s = record { server = s; owner = none; point = λ a. begins }
