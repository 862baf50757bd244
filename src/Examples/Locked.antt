-- ===== src/Examples/Locked.antt =====
-- Two threads of which one is in the section at its start and the other waits.
use fap2_srv.Prelude.{ℕ, print_int, none, some, List, [], ◌∷◌, pos, ◌≡◌, refl}
use fap2_srv.Server.{Server}
use fap2_srv.Registry.{find_index, set_name}
use fap2_srv.Locks.{
  entering, leaving, waits, at_find_index, Machine, first_point, behind, statement, moved, calls,
  locks, runs, unlocks, Runs, idle, then, opened,
}
use fap2_srv.Locks.Exclusion.{inside-one}
use fap2_srv.Locks.Atomic.{Atomic, Pending, Runs-Refines}
use fap2_srv.Locks.Unblocked.{waiting_through, find_index-found}
use fap2_srv.Locks.Lookup.{
  outside, missing, Vector, Pass, look, Pushed, Grows, stays, grows, Looked, lookup-Looked,
}
use fap2_srv.Examples.Data.{two_sessions}

abbrev nobody : Server ℕ
nobody = record two_sessions { clients = [] }

-- The first thread called LockMutex, then the second, and the first got the mutex.
abbrev first_called : Machine ℕ
first_called = moved (opened nobody) 0 (waits entering)

abbrev second_called : Machine ℕ
second_called = moved first_called 1 (waits entering)

abbrev first_inside : Machine ℕ
first_inside = record (moved second_called 0 (first_point entering)) { owner = some 0 }

to_inside : Runs (opened nobody) first_inside
to_inside =
    then (then (then idle (calls 0 entering refl)) (calls 1 entering refl))
      (locks 0 entering refl refl)

inside-one_example : (first_inside.owner ≡ some 0) × ◌≡◌ {A = ℕ} 0 0
inside-one_example = inside-one 0 0 to_inside refl refl

Runs-Refines_example : (t : Server ℕ) × Atomic nobody t × Pending first_inside t
Runs-Refines_example = Runs-Refines to_inside

waiting_through_example :
    (n : Machine ℕ) × Runs first_inside n × (n.owner ≡ none) × (n.point 1 ≡ behind entering)
waiting_through_example = waiting_through 1 entering refl to_inside refl

-- The machine behind a statement of the thread.
abbrev stepped : Machine ℕ → ℕ → Machine ℕ
stepped m a = elim (statement a (m.point a) m.server) [
  | none ↦ m
  | some (p, t) ↦ record (moved m a p) { server = t }
]

abbrev pushed_in : Machine ℕ
pushed_in = stepped (stepped (stepped first_inside 0) 0) 0

-- The first thread has registered and comes to leave.
abbrev first_leaving : Machine ℕ
first_leaving =
    record (moved
      (moved (record (moved pushed_in 0 (behind entering)) { owner = none }) 0 (waits leaving)) 0
      (first_point leaving)) { owner = some 0 }

to_leaving : Runs (opened nobody) first_leaving
unfolding statement set_name print_int
to_leaving =
    then
      (then
        (then (then (then (then to_inside (runs 0 _ _ refl)) (runs 0 _ _ refl)) (runs 0 _ _ refl))
          (unlocks 0 entering refl))
        (calls 0 leaving refl))
      (locks 0 leaving refl refl)

first_leaves : first_leaving.point 0 ≡ at_find_index
first_leaves = refl

find_index-found_example :
    (i : ℕ) × (find_index first_leaving.server.sessions
        (first_leaving.server.sessions 0).id
        first_leaving.server.clients
      ≡ some i)
find_index-found_example = find_index-found 0 refl to_leaving first_leaves

-- The vector in its first block, and in a new one.
abbrev first_block : List ℕ → Vector
first_block xs = record { block = 0; items = xs }

abbrev second_block : List ℕ → Vector
second_block xs = record { block = 1; items = xs }

-- An iteration in which the vector does not change.
abbrev still : Vector → Pass
still v = record {
  size_from = v;
  size_to = v;
  test_from = v;
  test_to = v;
  take_from = v;
  take_to = v;
}

same_one : Pushed (first_block (0 ∷ [])) (first_block (0 ∷ []))
same_one = record { block = refl; items = ([], refl) }

same_two : Pushed (first_block (0 ∷ 1 ∷ [])) (first_block (0 ∷ 1 ∷ []))
same_two = record { block = refl; items = ([], refl) }

-- A lookup of the second session, which registers between the two iterations.
grown :
    Grows
      (first_block (0 ∷ []))
      (still (first_block (0 ∷ [])) ∷ still (first_block (0 ∷ 1 ∷ [])) ∷ [])
      (first_block (0 ∷ 1 ∷ []))
grown = grows (still (first_block (0 ∷ []))) same_one same_one same_one same_one same_one same_one (
    grows (still (first_block (0 ∷ 1 ∷ []))) (record { block = refl; items = (1 ∷ [], refl) })
      same_two same_two same_two same_two same_two (stays same_two))

lookup-Looked_example : Looked two_sessions.sessions (pos 1) (0 ∷ []) (0 ∷ 1 ∷ []) (
    look two_sessions.sessions
      (pos 1)
      0
      (still (first_block (0 ∷ [])) ∷ still (first_block (0 ∷ 1 ∷ [])) ∷ []))
lookup-Looked_example = lookup-Looked two_sessions.sessions (pos 1) grown

-- The first session is erased behind the first iteration: the second, which is in the list all the
-- time, is not found.
overlooked :
    look two_sessions.sessions
      (pos 1)
      0
      (still (first_block (0 ∷ 1 ∷ [])) ∷ still (first_block (1 ∷ [])) ∷ [])
    ≡ missing
unfolding look
overlooked = refl

-- It is erased behind the test of the second iteration: the read for the result is behind the end.
read_outside :
    look two_sessions.sessions (pos 1) 0 (
      still (first_block (0 ∷ 1 ∷ []))
      ∷ (record (still (first_block (0 ∷ 1 ∷ []))) {
        take_from = first_block (1 ∷ []);
        take_to = first_block (1 ∷ []);
      })
      ∷ [])
    ≡ outside
unfolding look
read_outside = refl

-- A third session registers, for which the block is too small: the read is in freed memory.
read_freed :
    look two_sessions.sessions
      (pos 0)
      0
      ((record (still (first_block (0 ∷ 1 ∷ []))) { take_to = second_block (0 ∷ 1 ∷ 2 ∷ []) }) ∷ [])
    ≡ outside
unfolding look
read_freed = refl
