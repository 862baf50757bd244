-- ===== src/Examples/Lines.antt =====
-- The client, the proxies and the agent with a session of a small server at the other end.
use fap2_srv.Prelude.{
  ℕ, pos, Text, codes, avoids-Avoids, at, has, insert, print_int, none, some, [], ◌∷◌, ◌++◌, map,
  Bool, true, false, ◌≡◌, refl, text_key, arith, find_first_of,
}
use fap2_srv.Requests.{req_separator}
use fap2_srv.Fap.{ok}
use fap2_srv.Server.{extern, Server, lift, modify}
use fap2_srv.Session.{
  provider_key, context_owner, get_context, call, create_env, build_env, finish_env, add_context,
  get_env, get_id,
}
use fap2_srv.Handler.{catching, reply}
use fap2_srv.Handler.Repeat.{Returns}
use fap2_srv.Client.{returned, BaseClient}
use fap2_srv.Client.Wire.{IsRequest}
use fap2_srv.Proxy.{Proxies, done, thrown, new_px, get_node}
use fap2_srv.Agent.{Renv, add_elem_rmt}
use fap2_srv.Served.{Line, line}
use fap2_srv.Served.Requests.{answer, Made}
use fap2_srv.Served.Talk.{request_each, asking, Talk, quiet, asks, request_each_served}
use fap2_srv.Served.Nodes.{Points, get_node_served}
use fap2_srv.Served.Again.{get_node_twice}
use fap2_srv.Served.Root.{Creates, create_spec, add_elem_rmt_served}
use fap2_srv.Examples.Data.{small_fap, two_sessions}

abbrev pub small_line : Line ℕ
small_line = record { server = two_sessions; inbox = []; up = true }

abbrev pub small_client : BaseClient
small_client = record { sock = pos 3 }

-- A proxy with the context of the first object, for the second session.
abbrev root_proxy : Proxies (Line ℕ)
root_proxy = record {
  px = λ p. new_px none (codes "root");
  count = 1;
  client = small_client;
  net = small_line;
}

one-Returns : (spec : Text) → Returns small_fap 1 2 spec (codes "u2")
unfolding print_int
one-Returns spec = record { call = λ w. refl; uid = λ w. refl }

node-IsRequest : IsRequest (codes "root") (codes "GetNode,1,a")
node-IsRequest = record {
  some_id = omega arith;
  one_word = avoids-Avoids req_separator (codes "root") refl;
  clean = avoids-Avoids (0 ∷ []) ((codes "root") ++ 32 ∷ codes "GetNode,1,a") refl;
  fits = omega arith;
}

root-Points : Points small_fap 1 0 1 2 (codes "a") (codes "u2") root_proxy
unfolding get_context context_owner at has
root-Points = record {
  inv = record { older = λ p q h e. cc; context = λ p q k h e. cc };
  below = omega arith;
  up = refl;
  read = refl;
  form = node-IsRequest;
  alone = refl;
  found = refl;
  rets = one-Returns (codes "GetNode,1,a");
  new = refl;
  clean = (refl, (refl, tt));
  short = omega arith;
}

get_node_served_example :
    (q : ℕ) × (t : Proxies (Line ℕ)) × (get_node (line small_fap 1) 0 (codes "a") root_proxy
      ≡ (done (some q), t))
    × ((t.px q).context ≡ codes "u2")
    × (get_context 1 (codes "u2") t.net.server ≡ some (extern 2))
get_node_served_example =
    get_node_served small_fap 1 0 1 2 (codes "a") (codes "u2") root_proxy root-Points

get_node_twice_example :
    let t = (get_node (line small_fap 1) 0 (codes "a") root_proxy).1 in
    ((get_node (line small_fap 1) 0 (codes "a") t).0 ≡ thrown (codes "length_error"))
    × ((get_node (line small_fap 1) 0 (codes "a") t).1.net.up ≡ false)
get_node_twice_example =
    get_node_twice small_fap 1 0 1 2 (codes "a") (codes "u2") root_proxy root-Points

-- Object 2 says what it is told.
pub hi-IsRequest : IsRequest (codes "u2") (codes "hi")
hi-IsRequest = record {
  some_id = omega arith;
  one_word = avoids-Avoids req_separator (codes "u2") refl;
  clean = avoids-Avoids (0 ∷ []) ((codes "u2") ++ 32 ∷ codes "hi") refl;
  fits = omega arith;
}

-- The line behind the first answer.
abbrev hi_said : Line ℕ
hi_said = record small_line {
  server = (catching small_fap 0 (ok (none, codes "hi"), record two_sessions { world = 10 })).1;
}

-- The line behind the second.
abbrev hi_again : Line ℕ
hi_again = record hi_said {
  server = (catching small_fap 0 (ok (none, codes "hi"), record hi_said.server { world = 11 })).1;
}

hi-Made :
    Made small_fap 0
      (codes "u2")
      (codes "hi")
      small_line
      (ok (none, codes "hi"))
      (record two_sessions { world = 10 })
unfolding get_context context_owner at call lift
hi-Made = record { iface = extern 2; up = refl; form = hi-IsRequest; found = refl; called = refl }

hi-Made_again :
    Made small_fap 0
      (codes "u2")
      (codes "hi")
      hi_said
      (ok (none, codes "hi"))
      (record hi_said.server { world = 11 })
unfolding get_context context_owner at call lift catching reply
hi-Made_again = record {
  iface = extern 2;
  up = refl;
  form = hi-IsRequest;
  found = refl;
  called = refl;
}

hi-answer : (t : Server ℕ) → answer small_fap 0 (ok (none, codes "hi")) t ≡ some (true, codes "hi")
unfolding answer
hi-answer t = refl

hi-Talk :
    Talk small_fap 0
      ((codes "u2", codes "hi") ∷ (codes "u2", codes "hi") ∷ [])
      small_line
      ((true, codes "hi") ∷ (true, codes "hi") ∷ [])
      hi_again
hi-Talk =
    asks (codes "u2") (codes "hi") small_line (ok (none, codes "hi")) _ true (codes "hi") hi-Made
      (hi-answer _) (avoids-Avoids (0 ∷ []) (codes "hi") refl) (omega arith)
      (asks (codes "u2") (codes "hi") hi_said (ok (none, codes "hi")) _ true (codes "hi")
        hi-Made_again (hi-answer _) (avoids-Avoids (0 ∷ []) (codes "hi") refl) (omega arith)
        (quiet hi_again))

request_each_served_example :
    request_each
      (line small_fap 0)
      small_client
      (map asking ((codes "u2", codes "hi") ∷ (codes "u2", codes "hi") ∷ []))
      small_line
    ≡ (
      map (λ (x : Bool × Text). returned x) ((true, codes "hi") ∷ (true, codes "hi") ∷ []),
      hi_again,
    )
request_each_served_example = request_each_served small_fap 0 small_client refl hi-Talk

-- A chromo for the second session, which has no environment.
abbrev env_made : Server ℕ
env_made = (create_env small_fap 1 (codes "c") two_sessions).1

c-Creates : Creates small_fap 1 1 2 (codes "c") (codes "u2") small_line env_made
unfolding get_context context_owner at has create_env build_env finish_env add_context get_env
    get_id lift modify insert print_int find_first_of
c-Creates = record {
  up = refl;
  read = refl;
  form = record {
    some_id = omega arith;
    one_word = avoids-Avoids req_separator provider_key refl;
    clean = avoids-Avoids (0 ∷ []) (provider_key ++ 32 ∷ create_spec (codes "c")) refl;
    fits = omega arith;
  };
  parsed = refl;
  provider = refl;
  created = refl;
  alone = refl;
  menv = refl;
  rets = one-Returns (codes "Root");
  new = refl;
  clean = avoids-Avoids (0 ∷ []) (codes "u2") refl;
  short = omega arith;
}

abbrev small_renv : Renv (Line ℕ)
small_renv = record { proxies = root_proxy; renv_uri = []; root = none; notes = [] }

add_elem_rmt_served_example :
    (t : Renv (Line ℕ)) × (add_elem_rmt (line small_fap 1) (codes "c") small_renv ≡ (done tt, t))
    × (t.root ≡ some 1)
    × ((t.proxies.px 1).context ≡ codes "u2")
    × (get_context 1 (codes "u2") t.proxies.net.server ≡ some (extern 2))
add_elem_rmt_served_example =
    add_elem_rmt_served small_fap 1 1 2 (codes "c") (codes "u2") small_renv env_made c-Creates
