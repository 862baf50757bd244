-- ===== src/Examples/Remote.antt =====
-- The client against a server that gives one reply, and the proxies of an agent behind it.
use fap2_srv.Prelude.{
  ℕ, pos, suc, ◌<◌, codes, at, has, insert, none, some, [], true, false, ◌≡◌, refl, text_key,
  nat_key, arith,
}
use fap2_srv.Client.{connect, Net, request_args, take_response, BaseClient, parse_response, request}
use fap2_srv.Proxy.{
  Proxies, done, new_px, agent_request, forward, ask, is_cached, reg_proxy, create, node_for,
  get_node,
}
use fap2_srv.Proxy.Forward.{Older, ask-agent}
use fap2_srv.Proxy.Cache.{Inv, registered}
use fap2_srv.Agent.{Renv, change_cont, reconnect}

-- The state counts the calls.
abbrev pub small_net : Net ℕ
small_net = record {
  socket = λ n. (pos 3, suc n);
  resolve = λ host n. (true, suc n);
  connect = λ sock n. (false, suc n);
  send = λ sock text n. (true, suc n);
  recv = λ sock size n. (some (codes "O node"), suc n);
  close = λ sock n. suc n;
}

abbrev small_client : BaseClient
small_client = record { sock = pos 3 }

-- The proxy of the root, which the agent made.
abbrev pub one_proxy : Proxies ℕ
one_proxy = record {
  px = λ p. new_px none (codes "root");
  count = 1;
  client = small_client;
  net = 0;
}

pub one-Older : Older one_proxy
one-Older = λ p q h e. cc

pub one-Inv : Inv one_proxy
unfolding at
one-Inv = record { older = one-Older; context = λ p q k h e. cc }

few : 0 < one_proxy.count
few = omega arith

ask-agent_example :
    ask small_net 0 (codes "Name") one_proxy
    ≡ agent_request small_net (codes "root") (codes "Name") one_proxy
ask-agent_example = ask-agent small_net 0 (codes "Name") one_proxy one-Older few

-- The state behind the first GetNode.
abbrev node_made : Proxies ℕ
node_made = registered 0 (codes "node") (record one_proxy { net = 2 })

node_given : get_node small_net 0 (codes "./a") one_proxy ≡ (done (some 1), node_made)
unfolding get_node ask forward agent_request request_args request take_response parse_response
    node_for is_cached reg_proxy create has insert
node_given = refl

node_again :
    (agent_request small_net (node_made.px 0).context (codes "GetNode,1,./b") node_made).0
    ≡ done (true, (node_made.px 1).context)
unfolding agent_request request_args request take_response parse_response
node_again = refl

abbrev pub small_agent : Renv ℕ
small_agent = record { proxies = one_proxy; renv_uri = []; root = none; notes = [] }

-- The agent behind a connection that failed.
abbrev lost_agent : Renv ℕ
lost_agent = record {
  proxies = record one_proxy { net = 2 };
  renv_uri = codes "host";
  root = none;
  notes = [];
}

change_failed : change_cont small_net (codes "host") true small_agent ≡ (false, lost_agent)
unfolding change_cont reconnect connect
change_failed = refl
