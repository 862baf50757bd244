-- ===== src/Examples/Data.antt =====
-- A small library of objects, and a server with two sessions.
use fap2_srv.Prelude.{
  ℕ, suc, ◌+◌, ◌==◌, if◌then◌else◌, Text, codes, find_first_of, take, drop, print_int, pos, Option,
  none, some, List, [], ◌∷◌, arith, at, text_key,
}
use fap2_srv.Fap.{Fap, ok, threw}
use fap2_srv.Server.{session, extern, Session, Server}
use fap2_srv.Session.{provider_key}
use fap2_srv.Session.Owned.{Owned}
use fap2_srv.Threads.{new_session}

-- A call `name,types,argument`.
abbrev args_at : Text → Option ℕ → List Text
args_at spec none = []
args_at spec (some i) = drop (i + 1) spec ∷ []

abbrev split_spec : Text → Option ℕ → Text × List Text
split_spec spec none = (spec, [])
split_spec spec (some i) = (take i spec, args_at spec (find_first_of (codes ",") spec (i + 1)))

-- Object 1 returns object 2, object 2 says what it is told, and others throw.
abbrev pub small_fap : Fap ℕ
small_fap = record {
  parse_ic_spec = λ spec. ok (split_spec spec (find_first_of (codes ",") spec 0));
  call = λ r spec w. (
    if r == 1 then ok (some 2, []) else if r == 2 then ok (none, spec) else threw (codes "bad"),
    suc w,
  );
  uid = λ r w. b'u' ∷ print_int r;
  iface_sep = codes "#";
  new_env = λ chromo log w. (ok (some w), suc w);
  set_evar = λ env name value w. (ok tt, suc w);
  add_daa_prov = λ name env w. (ok tt, suc w);
  construct_system = λ env w. (ok tt, suc w);
  get_obj = λ env w. (ok (some 1), suc w);
  uninit_int = pos 0;
}

-- A session that was handed both objects, and one that was handed the first.
abbrev pub old_session : Session
old_session = record {
  name = [];
  id = 0;
  sock = 4;
  env = none;
  ctx =
      (provider_key, some (session 0))
      ∷ (codes "root", some (extern 1))
      ∷ (codes "u2", some (extern 2))
      ∷ [];
  attached = none;
}

abbrev pub young_session : Session
young_session = record {
  name = [];
  id = 1;
  sock = 5;
  env = none;
  ctx = (provider_key, some (session 1)) ∷ (codes "root", some (extern 1)) ∷ [];
  attached = none;
}

abbrev pub two_sessions : Server ℕ
two_sessions = record {
  sessions = λ a. if a == 0 then old_session else if a == 1 then young_session else new_session 0;
  count = 2;
  clients = 0 ∷ 1 ∷ [];
  world = 9;
  sent = [];
  closed_socks = [];
}

pub two_sessions-Owned : Owned two_sessions
unfolding at
two_sessions-Owned = record { self = λ b c k e. ground arith }
