-- ===== src/Locks/Unblocked.antt =====
-- Every thread of server/sclient.cpp that waits for the mutex gets through its critical section.
use fap2_srv.Prelude.{ℕ, ◌<◌, true, none, some, List, [], ◌≡◌, refl, sym, ap, ◌∙◌, arith}
use fap2_srv.Server.{Server}
use fap2_srv.Registry.{find_index}
use fap2_srv.Registry.Counts.{count_id, count_id-same, count_id-get_elem?, find_index-some}
use fap2_srv.Locks.{
  Section, waits, at_find_index, Machine, behind, first_point, Micro, calls, locks, runs, unlocks,
  changes, Runs, idle, then, opened, Unlocked, change,
}
use fap2_srv.Locks.Exclusion.{inside, statement-inside, Exclusive, Runs-Exclusive}
use fap2_srv.Locks.Overlay.{find_index-change}
use fap2_srv.Locks.Order.{tally, tally-get_elem?, at_point, calls-Alike, locks-Alike, unlocks-Alike}
use fap2_srv.Locks.Found.{Orderly, Lone, Kept, Alike-Orderly, runs-Kept}
use fap2_srv.Locks.Progress.{Passes, passes, astray, chain, waiting-Passes}

module _ {W : Type 0} where
  inside-Lone : (m : Machine W) (a : ℕ) → Exclusive m → inside (m.point a) ≡ true → Lone m a
  inside-Lone m a v here b i other at =
      let mine = (v a).0 here in
      let its = (v b).0 (ap inside at) in let same : a ≡ b = cc in ground arith

  change-Orderly :
      (u : Unlocked W) (m : Machine W) (run : List ℕ)
      → Orderly m run
      → Orderly (record m { server = change u m.server }) run
  change-Orderly u m run v = record {
    tally_run = v.tally_run;
    absent = v.absent;
    counts = λ k.
        count_id-same m.server.sessions (change u m.server).sessions k m.server.clients (λ b. refl)
        ∙ v.counts k
        ∙ sym (count_id-same m.server.sessions (change u m.server).sessions k run (λ b. refl));
    at_index = λ b i e.
        find_index-change u m.server (m.server.sessions b).id m.server.clients ∙ v.at_index b i e;
  }

  Micro-Kept : {m n : Machine W} → Micro m n → Exclusive m → Kept m → Kept n
  Micro-Kept {m} (calls a w at) x (run, v) =
      (run, Alike-Orderly m run a (waits w) (at_point at (calls-Alike w)) v)
  Micro-Kept {m} (locks a w at is_free) x (run, v) =
      let h = Alike-Orderly m run a (first_point w) (at_point at (locks-Alike w)) v in
      (
        run,
        record {
          tally_run = h.tally_run;
          absent = h.absent;
          counts = h.counts;
          at_index = h.at_index;
        },
      )
  Micro-Kept {m} (runs a p t e) x (run, v) =
      runs-Kept m run a (m.point a) p t refl e
        (inside-Lone m a x (statement-inside a (m.point a) p m.server t e).0) v
  Micro-Kept {m} (unlocks a w at) x (run, v) =
      let h = Alike-Orderly m run a (behind w) (at_point at (unlocks-Alike w)) v in
      (
        run,
        record {
          tally_run = h.tally_run;
          absent = h.absent;
          counts = h.counts;
          at_index = h.at_index;
        },
      )
  Micro-Kept {m} (changes u) x (run, v) = (run, change-Orderly u m run v)

  Runs-Kept : (s : Server W) {m : Machine W} → s.clients ≡ [] → Runs (opened s) m → Kept m
  Runs-Kept s empty idle = (
    [],
    record {
      tally_run = λ b. refl;
      absent = λ b e. ap (tally b) empty;
      counts = λ k. ap (count_id s.sessions k) empty;
      at_index = λ b i e. absurd (cc);
    },
  )
  Runs-Kept s empty (then r st) = Micro-Kept st (Runs-Exclusive r) (Runs-Kept s empty r)

  -- In every state that the threads can reach from an empty list of clients, statement by
  -- statement, FindSessionClientIndex of a thread that leaves finds an index: the entry at -1 is
  -- never read.
  pub find_index-found :
      {s : Server W} {m : Machine W} (a : ℕ)
      → s.clients ≡ []
      → Runs (opened s) m
      → m.point a ≡ at_find_index
      → (i : ℕ) × (find_index m.server.sessions (m.server.sessions a).id m.server.clients ≡ some i)
  find_index-found {s} {m} a empty r at =
      let (run, v) = Runs-Kept s empty r in
      let here : 0 < tally a run = ground (arith, v.tally_run a, at) in
      let (i, there) = tally-get_elem? a run here in
      find_index-some m.server.sessions (m.server.sessions a).id m.server.clients (
        omega (
          arith,
          v.counts (m.server.sessions a).id,
          count_id-get_elem? m.server.sessions a i run there,
        ))

  through :
      (s : Server W) (m : Machine W) (a : ℕ) (w : Section)
      → s.clients ≡ []
      → Runs (opened s) m
      → Passes m a w
      → (n : Machine W) × Runs m n × (n.owner ≡ none) × (n.point a ≡ behind w)
  through s m a w empty r (passes n q is_free out) = (n, q, is_free, out)
  through s m a w empty r (astray n b q lost) =
      let (i, hit) = find_index-found b empty (chain r q) lost.0 in absurd (cc)

  -- A thread that waits for the mutex, in any state that the threads can reach from an empty list
  -- of clients, whatever they and the code outside of the sections have done, can get the mutex
  -- and leave its section, with the mutex free behind it: there is no deadlock.
  pub waiting_through :
      {s : Server W} {m : Machine W} (a : ℕ) (w : Section)
      → s.clients ≡ []
      → Runs (opened s) m
      → m.point a ≡ waits w
      → (n : Machine W) × Runs m n × (n.owner ≡ none) × (n.point a ≡ behind w)
  waiting_through {s} {m} a w empty r at = through s m a w empty r (waiting-Passes a w r at)
