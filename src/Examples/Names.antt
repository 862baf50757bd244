-- ===== src/Examples/Names.antt =====
-- A server that tells a name once.
use fap2_srv.Prelude.{ℕ, pos, suc, ◌==◌, if◌then◌else◌, codes, none, some, true, false, ◌≡◌, refl}
use fap2_srv.Server.{update}
use fap2_srv.Client.{Net, request_args, request, take_response, parse_response}
use fap2_srv.Proxy.{Proxies, done, new_px, agent_request, forward, ask, name}
use fap2_srv.Examples.Remote.{one_proxy}

abbrev fading_net : Net ℕ
fading_net = record {
  socket = λ n. (pos 3, suc n);
  resolve = λ host n. (true, suc n);
  connect = λ sock n. (true, suc n);
  send = λ sock text n. (true, suc n);
  recv = λ sock size n. (some (if n == 1 then codes "O node" else codes "E gone"), suc n);
  close = λ sock n. suc n;
}

abbrev named_proxy : Proxies ℕ
named_proxy = record one_proxy {
  px = update one_proxy.px 0 (record (new_px none (codes "root")) { name = codes "node" });
  net = 2;
}

name_told : name fading_net 0 one_proxy ≡ (done (codes "node"), named_proxy)
unfolding name ask forward agent_request request_args request take_response parse_response
name_told = refl

name_gone :
    (agent_request fading_net (codes "root") (codes "Name") named_proxy).0
    ≡ done (false, codes "gone")
unfolding agent_request request_args request take_response parse_response
name_gone = refl
