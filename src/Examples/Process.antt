-- ===== src/Examples/Process.antt =====
-- A process that accepts three clients, of which the first leaves before the third one's thread
-- starts.
use fap2_srv.Prelude.{
  ℕ, ◌≤◌, ◌||◌, if◌then◌else◌, ltb, codes, c_str, one_of, has, none, some, [], ◌∷◌, ◌++◌, true,
  false, get_elem?, length, pos, ◌≡◌, ◌≢◌, refl, text_key, arith,
}
use fap2_srv.Fap.{ok}
use fap2_srv.Server.{session, Server, modify, update}
use fap2_srv.Session.{provider_key, find_by_id, add_context}
use fap2_srv.Registry.{numbered, set_name, register, unregister, find_index}
use fap2_srv.Registry.Counts.{count_id}
use fap2_srv.Threads.{
  closed, ended, turn, close_sock, buffer_size, read_message, System, accept, accepts, built,
  starts, ends, Reach, here, next, boot,
}
use fap2_srv.Threads.Buffer.{read_message_lem}
use fap2_srv.Threads.Building.{built-ok}
use fap2_srv.Threads.Ids.{start_shares_id, Numbered, Reach-Numbered}
use fap2_srv.Threads.Invariant.{Inv}
use fap2_srv.Threads.Steps.{Reach-Inv, turn_closed-ended}
use fap2_srv.Examples.Data.{small_fap}

-- The rest of the constructor, and the start of the thread.
abbrev pub build : ℕ → System ℕ → System ℕ
build a y = record y {
  server = (add_context a provider_key (some (session a)) y.server).1;
  building = none;
}

abbrev pub start : ℕ → System ℕ → System ℕ
start a y = record y {
  server = register a y.server;
  fresh = update y.fresh a false;
  running = y.running ++ a ∷ [];
}

abbrev pub empty : System ℕ
empty = boot 0

-- The first client.
abbrev pub first_in : System ℕ
first_in = accept 4 empty

abbrev pub first_runs : System ℕ
first_runs = start 0 (build 0 first_in)

pub first_builds : first_in.building ≡ some 0
unfolding accept
first_builds = refl

pub first_built :
    add_context 0 provider_key (some (session 0)) first_in.server
    ≡ (ok tt, (build 0 first_in).server)
unfolding add_context accept has modify
first_built = refl

pub first_starts : (build 0 first_in).fresh 0 ≡ true
unfolding accept
first_starts = refl

first_run : Reach small_fap empty first_runs
first_run =
    next (next (next here (accepts 4 refl)) (built 0 _ first_builds first_built))
      (starts 0 first_starts)

first_in_reached : Reach small_fap empty first_in
first_in_reached = next here (accepts 4 refl)

built-ok_example : (add_context 0 provider_key (some (session 0)) first_in.server).0 ≡ ok tt
built-ok_example = built-ok small_fap 0 first_in_reached first_builds

-- The second client, whose thread starts before its constructor ends.
abbrev pub second_in : System ℕ
second_in = accept 5 first_runs

abbrev pub both_run : System ℕ
both_run = build 1 (start 1 second_in)

pub second_builds : (start 1 second_in).building ≡ some 1
unfolding accept register add_context has
second_builds = refl

pub second_built :
    add_context 1 provider_key (some (session 1)) (start 1 second_in).server
    ≡ (ok tt, both_run.server)
unfolding add_context accept has modify register numbered set_name
second_built = refl

pub second_starts : second_in.fresh 1 ≡ true
unfolding accept register add_context modify has
second_starts = refl

pub both_reached : Reach small_fap empty both_run
both_reached =
    next (next (next first_run (accepts 5 refl)) (starts 1 second_starts))
      (built 1 _ second_builds second_built)

pub first_listed : get_elem? both_run.running 0 ≡ some 0
unfolding accept
first_listed = refl

turn_closed-ended_example :
    (t : Server ℕ) × (turn small_fap 0 closed both_run.server ≡ ended t) × (t.closed_socks ≡ 4 ∷ [])
unfolding accept register add_context modify has numbered set_name
turn_closed-ended_example = turn_closed-ended small_fap 0 0 both_reached first_listed

Reach-Inv_example : Inv both_run
Reach-Inv_example = Reach-Inv small_fap both_reached

Reach-Numbered_example : Numbered both_run.server
unfolding both_reached first_run
Reach-Numbered_example =
    Reach-Numbered small_fap both_reached ((((((tt, tt), tt), tt), tt), tt), tt)

-- The first client leaves, and a third one comes.
abbrev one_left : System ℕ
one_left = record both_run {
  server = record both_run.server { clients = 1 ∷ []; closed_socks = 4 ∷ [] };
  running = 1 ∷ [];
}

first_leaves : turn small_fap 0 closed both_run.server ≡ ended one_left.server
unfolding turn close_sock unregister find_index register accept add_context modify has numbered
    set_name
first_leaves = refl

one_reached : Reach small_fap empty one_left
unfolding accept
one_reached = next both_reached (ends 0 0 closed one_left.server first_listed first_leaves)

abbrev third_in : System ℕ
third_in = accept 6 one_left

third_starts : third_in.fresh 2 ≡ true
unfolding accept register add_context modify has
third_starts = refl

third_reached : Reach small_fap empty third_in
third_reached = next one_reached (accepts 6 refl)

second_listed : get_elem? third_in.running 0 ≡ some 1
unfolding accept
second_listed = refl

second_id : (third_in.server.sessions 1).id ≡ length third_in.running
unfolding accept register add_context modify has numbered set_name
second_id = refl

start_shares_id_example :
    let s = register 2 third_in.server in
    ((s.sessions 2).id ≡ 1)
    × (2 ≤ count_id s.sessions 1 s.clients)
    × (c : ℕ) × (find_by_id s.sessions (pos (s.sessions 2).id) s.clients ≡ some c)
    × (c ≢ 2)
unfolding accept
start_shares_id_example =
    start_shares_id small_fap 2 1 0 third_reached third_starts second_listed second_id

few_bytes : length (codes "u2 ping") ≤ buffer_size
few_bytes = omega arith

read_message_lem_example : read_message (codes "u2 ping") ≡ (
    if ltb (length (codes "u2 ping")) buffer_size || one_of (codes "u2 ping") 0
    then some (c_str (codes "u2 ping"))
    else none)
read_message_lem_example = read_message_lem (codes "u2 ping") few_bytes
