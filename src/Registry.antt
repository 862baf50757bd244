-- ===== src/Registry.antt =====
-- server/sclient.cpp: the list of connected clients, and the start and the end of a session's
-- thread. Both work under the mutex, so each is one step.
pub mod Counts
use fap2_srv.Prelude.{
  ℕ, suc, ◌+◌, ◌==◌, if◌then◌else◌, Text, codes, c_str, take, print_int, Option, none, some, List,
  [], ◌∷◌, ◌++◌, length, erase_at,
}
use mathlib.Core.Option
use fap2_srv.Server.{Session, Server, update}

-- MAX_NAME_LENGHT
abbrev pub max_name_length : ℕ
max_name_length = 20

-- SetName
unfoldable pub set_name : Text → Session → Session
unfolding c_str
set_name name c = record c { name = take max_name_length (c_str name) }

-- SetId and SetName at the start of a thread.
unfoldable pub numbered : ℕ → Session → Session
unfolding set_name print_int
numbered id c = set_name (codes "SessionClient n." ++ print_int id) (record c { id = id })

-- FindSessionClientIndex: the first entry with the id of the session; `none` is -1.
unfoldable pub find_index : (ℕ → Session) → ℕ → List ℕ → Option ℕ
find_index heap id [] = none
find_index heap id (b ∷ rest) =
    if (heap b).id == id then some 0 else Option.map suc (find_index heap id rest)

module _ {W : Type 0} where
  -- The critical section at the start of HandleSessionClient: the id is the size of the list.
  unfoldable pub register : ℕ → Server W → Server W
  unfolding numbered
  register a s =
      let id = length s.clients in
      record s {
        sessions = update s.sessions a (numbered id (s.sessions a));
        clients = s.clients ++ a ∷ [];
      }

  -- The critical section at its end; `none` stands for the access at index -1.
  unfoldable pub unregister : ℕ → Server W → Option (Server W)
  unfolding find_index
  unregister a s =
      Option.map (λ i. record s { clients = erase_at i s.clients })
        (find_index s.sessions (s.sessions a).id s.clients)
