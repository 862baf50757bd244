-- ===== src/Examples/Specs.antt =====
-- Operations on the contexts of two sessions, and the main thread with two connections.
use fap2_srv.Prelude.{
  ℕ, suc, Text, List, codes, none, some, [], ◌∷◌, pos, true, ◌==◌, if◌then◌else◌, ◌≡◌,
}
use fap2_srv.Server.{extern}
use fap2_srv.Session.Spec.{adds, attaches, looks_up, perform_all, run_all, view, run_all-refines}
use fap2_srv.Threads.{System, boot}
use fap2_srv.Listen.{Sockets, goes, new_server, serve}
use fap2_srv.Listen.Loop.{Idle, Holds, accepted, serve-run}
use fap2_srv.Examples.Data.{small_fap, two_sessions}

run_all-refines_example :
    let ops =
      adds 0 (codes "new") (some (extern 7)) ∷ attaches 1 (pos 0) ∷ looks_up 1 (codes "new") ∷ [] in
    perform_all ops (view two_sessions)
    ≡ ((run_all ops two_sessions).0, view (run_all ops two_sessions).1)
run_all-refines_example =
    run_all-refines
      (adds 0 (codes "new") (some (extern 7)) ∷ attaches 1 (pos 0) ∷ looks_up 1 (codes "new") ∷ [])
      two_sessions

-- The second call of accept fails.
abbrev small_sockets : Sockets ℕ
small_sockets = record {
  socket = λ n. (some 3, suc n);
  bind = λ sock n. (true, suc n);
  listen = λ sock n. (true, suc n);
  accept = λ sock n. (if n == 4 then none else some n, suc n);
}

abbrev small_world : ℕ
small_world = 9

serve-run_example :
    let (l, m) = new_server small_sockets 0 in
    (y : System ℕ) × (errors : List Text) × ((serve small_sockets 3 small_world 0).0
      ≡ goes y errors)
    × Idle small_fap small_world y
    × Holds 0 (accepted small_sockets 3 l m) (boot small_world) y
serve-run_example = serve-run small_fap small_sockets small_world 3 0
