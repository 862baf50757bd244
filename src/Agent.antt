-- ===== src/Agent.antt =====
-- dmas/renv.h and dmas/renv.cpp: the agents ARenv and ARenvu that stand for a remote environment.
pub mod Remote
pub mod Comps
pub mod Root
pub mod Upper
pub mod Mutation
pub mod Types
pub mod Life
use fap2_srv.Prelude.{
  ℕ, if◌then◌else◌, Text, text_eq, codes, Option, none, some, List, [], ◌∷◌, ◌++◌, Bool, true,
  false,
}
use fap2_srv.Client.{Net, Result, returned, raised, length_error, connect}
use fap2_srv.Proxy.{
  Proxies, Run, done, thrown, asserted, null_access, out_of_fuel, Method, agent_request, create,
}

-- What the owner of the agent is told.
pub data Note : Type 0 where
  content_changed comp_changed : Note

-- class ARenv: the connection and the proxies, the uri, the root proxy, and what iMan was told.
pub record Renv (N : Type 0) : Type 0 where
  pub proxies : Proxies N
  pub renv_uri : Text
  pub root : Option ℕ
  pub notes : List Note

-- A connection that was made; every exception of Connect is caught.
abbrev pub connected : Result (Unit {0}) → Bool
connected (returned _) = true
connected (raised what) = false
connected length_error = false

module _ {N : Type 0} (net : Net N) where
  -- The branch of ChangeCont on a new value.
  unfoldable pub reconnect : Text → Bool → Renv N → Bool × Renv N
  reconnect val rt_only s =
      let (r, n) = connect net s.proxies.client [] s.proxies.net in
      let t = record s { proxies = record s.proxies { net = n }; renv_uri = val } in
      if connected r
      then (
        true,
        record t { notes = s.notes ++ (if rt_only then content_changed else comp_changed) ∷ [] },
      )
      else (false, t)

  -- ChangeCont
  unfoldable pub change_cont : Text → Bool → Renv N → Bool × Renv N
  unfolding reconnect
  change_cont val rt_only s = if text_eq val s.renv_uri then (true, s) else reconnect val rt_only s

  -- GetCont
  unfoldable pub get_cont : Renv N → Text
  get_cont s = s.renv_uri

  -- The end of AddElemRmt: the root is asked for, and a proxy is made of it.
  unfoldable pub root_for : Run (Bool × Text) × Proxies N → Renv N → Run (Unit {0}) × Renv N
  unfolding create
  root_for (done (true, rroot), t) s =
      (done tt, record s { proxies = (create none rroot t).1; root = some t.count })
  root_for (done (false, rroot), t) s = (done tt, record s { proxies = t })
  root_for (thrown what, t) s = (thrown what, record s { proxies = t })
  root_for (asserted, t) s = (asserted, record s { proxies = t })
  root_for (null_access, t) s = (null_access, record s { proxies = t })
  root_for (out_of_fuel, t) s = (out_of_fuel, record s { proxies = t })

  -- The middle of AddElemRmt: whether the first request succeeded is only logged.
  unfoldable pub env_for : Run (Bool × Text) × Proxies N → Renv N → Run (Unit {0}) × Renv N
  unfolding root_for agent_request
  env_for (done (res, env), t) s = root_for (agent_request net env (codes "Root") t) s
  env_for (thrown what, t) s = (thrown what, record s { proxies = t })
  env_for (asserted, t) s = (asserted, record s { proxies = t })
  env_for (null_access, t) s = (null_access, record s { proxies = t })
  env_for (out_of_fuel, t) s = (out_of_fuel, record s { proxies = t })

  -- AddElemRmt, from the text of the chromo.
  unfoldable pub add_elem_rmt : Text → Renv N → Run (Unit {0}) × Renv N
  unfolding env_for agent_request
  add_elem_rmt spec s =
      env_for (agent_request net (codes "EnvProvider") (codes "CreateEnv,1," ++ spec) s.proxies) s

  -- ARenv::Request
  unfoldable pub request : Text → Text → Renv N → Run (Bool × Text) × Renv N
  request context req s =
      let (r, t) = agent_request net context req s.proxies in (r, record s { proxies = t })
