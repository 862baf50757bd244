-- ===== src/Examples/Lives.antt =====
-- An agent from its constructor to the first node that its root proxy gives.
use fap2_srv.Prelude.{ℕ, ◌<◌, codes, arith}
use fap2_srv.Client.{request_args, request, take_response, parse_response}
use fap2_srv.Proxy.{agent_request, get_node, create}
use fap2_srv.Proxy.Cache.{NodeFate}
use fap2_srv.Agent.{Renv, add_elem_rmt, env_for, root_for}
use fap2_srv.Agent.Root.{Rooted}
use fap2_srv.Agent.Life.{born, Life, starts, acts, adds, gets_node, Life-Rooted, Life-Fate}
use fap2_srv.Examples.Remote.{small_net}

abbrev young : Renv ℕ
young = born small_net (codes "agent") 0

abbrev rooted : Renv ℕ
rooted = (add_elem_rmt small_net (codes "chromo") young).1

abbrev served : Renv ℕ
served = record rooted { proxies = (get_node small_net 0 (codes "./a") rooted.proxies).1 }

root_made : 0 < rooted.proxies.count
unfolding add_elem_rmt env_for root_for agent_request request_args request take_response
    parse_response create born
root_made = omega arith

to_rooted : Life small_net (codes "agent") 0 rooted
to_rooted = acts starts (adds (codes "chromo"))

Life-Rooted_example : Rooted served
Life-Rooted_example = Life-Rooted small_net (acts to_rooted (gets_node 0 (codes "./a") root_made))

Life-Fate_example :
    let (reply, t) =
      agent_request small_net
        (rooted.proxies.px 0).context
        (codes "GetNode,1,./a")
        rooted.proxies in
    NodeFate 0 reply t (get_node small_net 0 (codes "./a") rooted.proxies)
Life-Fate_example = Life-Fate small_net 0 (codes "./a") to_rooted root_made
