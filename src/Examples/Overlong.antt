-- ===== src/Examples/Overlong.antt =====
-- A session whose objects answer with more than the client's buffer holds.
use fap2_srv.Prelude.{
  ℕ, suc, replicate, codes, avoids-Avoids, at, none, some, [], ◌∷◌, ◌++◌, true, take, drop, ◌≡◌,
  refl, text_key,
}
use fap2_srv.Fap.{Fap, ok}
use fap2_srv.Server.{extern, Server, lift}
use fap2_srv.Session.{context_owner, get_context, call}
use fap2_srv.Handler.{catching, reply}
use fap2_srv.Handler.Answers.{packet}
use fap2_srv.Client.{returned, parse_response, request}
use fap2_srv.Served.{Line, line}
use fap2_srv.Served.Requests.{answer, word, Made}
use fap2_srv.Served.Overlong.{request_cut}
use fap2_srv.Examples.Data.{small_fap, two_sessions}
use fap2_srv.Examples.Lines.{small_line, small_client, hi-IsRequest}

-- Every object says 600 times the same letter.
abbrev long_fap : Fap ℕ
long_fap = record small_fap { call = λ r spec w. (ok (none, replicate 600 65), suc w) }

-- The line behind the first long answer, of which 90 bytes are left.
abbrev long_said : Line ℕ
long_said = record {
  server =
      (catching long_fap 0 (ok (none, replicate 600 65), record two_sessions { world = 10 })).1;
  inbox = drop 510 (replicate 600 65);
  up = true;
}

long-Made :
    Made long_fap 0
      (codes "u2")
      (codes "hi")
      small_line
      (ok (none, replicate 600 65))
      (record two_sessions { world = 10 })
unfolding get_context context_owner at call lift
long-Made = record { iface = extern 2; up = refl; form = hi-IsRequest; found = refl; called = refl }

long-Made_again :
    Made long_fap 0
      (codes "u2")
      (codes "hi")
      long_said
      (ok (none, replicate 600 65))
      (record long_said.server { world = 11 })
unfolding get_context context_owner at call lift catching reply
long-Made_again = record {
  iface = extern 2;
  up = refl;
  form = hi-IsRequest;
  found = refl;
  called = refl;
}

long-answer :
    (t : Server ℕ)
    → answer long_fap 0 (ok (none, replicate 600 65)) t ≡ some (true, replicate 600 65)
unfolding answer
long-answer t = refl

request_cut_example :
    (request (line long_fap 0) small_client (codes "u2" ++ 32 ∷ codes "hi") small_line
      ≡ (returned (true, take 510 (replicate 600 65)), long_said))
    × ((request (line long_fap 0) small_client (codes "u2" ++ 32 ∷ codes "hi") long_said).0
        ≡ parse_response
            (take 512 (drop 510 (replicate 600 65) ++ packet (word true) (replicate 600 65))))
request_cut_example =
    request_cut long_fap 0 small_client (codes "u2") (codes "hi") (codes "u2") (codes "hi")
      small_line long_said (ok (none, replicate 600 65)) (ok (none, replicate 600 65))
      (record two_sessions { world = 10 }) (record long_said.server { world = 11 }) true true
      (replicate 600 65) (replicate 600 65) refl long-Made (long-answer _)
      (avoids-Avoids (0 ∷ []) (replicate 600 65) refl) refl long-Made_again (long-answer _)
