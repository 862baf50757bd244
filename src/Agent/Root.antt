-- ===== src/Agent/Root.antt =====
-- AddElemRmt and the proxy of the remote root.
use fap2_srv.Prelude.{
  ℕ, ◌<◌, ◌≤◌, Text, codes, none, some, ◌++◌, Bool, true, false, at, text_key, ◌≡◌, sym, ap, subst,
  arith,
}
use fap2_srv.Client.{Net}
use fap2_srv.Proxy.{
  Proxies, Run, done, thrown, asserted, null_access, out_of_fuel, agent_request, create,
}
use fap2_srv.Proxy.Cache.{Inv, agent_request-state}
use fap2_srv.Agent.{Renv, add_elem_rmt, env_for, root_for}

module _ {N : Type 0} where
  create-Inv : (context : Text) (s : Proxies N) → Inv s → Inv (create none context s).1
  unfolding create at
  create-Inv context s v = record {
    older = λ p q. ground (arith, v.older p q);
    context = λ p q k. ground (arith, v.context p q k);
  }

-- The proxies keep their invariant, and the root, if there is one, is one of them.
pub record Rooted {N : Type 0} (s : Renv N) : Type 0 where
  pub inv : Inv s.proxies
  pub root : (r : ℕ) → s.root ≡ some r → r < s.proxies.count

module _ {N : Type 0} (net : Net N) where
  request_behind :
      (context req : Text) (t : Proxies N)
      → Inv t
      → Inv (agent_request net context req t).1
        × ((agent_request net context req t).1.count ≡ t.count)
  request_behind context req t v =
      let (n, e) = agent_request-state net context req t in
      (
        subst (λ (u : Proxies N). Inv u) (sym e) (record { older = v.older; context = v.context }),
        ap (λ (u : Proxies N). u.count) e,
      )

  pub kept :
      (t : Proxies N) (s : Renv N)
      → Rooted s
      → Inv t
      → s.proxies.count ≤ t.count
      → Rooted (record s { proxies = t })
  kept t s v w le = record { inv = w; root = λ r e. omega (arith, v.root r e, le) }

  root_for-Rooted :
      (r : Run (Bool × Text)) (t : Proxies N) (s : Renv N)
      → Rooted s
      → Inv t
      → s.proxies.count ≤ t.count
      → Rooted (root_for net (r, t) s).1
  unfolding root_for
  root_for-Rooted (done (true, rroot)) t s v w le = record {
    inv = create-Inv rroot t w;
    root = λ r e. (let f : t.count ≡ r = cc in omega (arith, f));
  }
  root_for-Rooted (done (false, rroot)) t s v w le = kept t s v w le
  root_for-Rooted (thrown what) t s v w le = kept t s v w le
  root_for-Rooted asserted t s v w le = kept t s v w le
  root_for-Rooted null_access t s v w le = kept t s v w le
  root_for-Rooted out_of_fuel t s v w le = kept t s v w le

  env_for-Rooted :
      (r : Run (Bool × Text)) (t : Proxies N) (s : Renv N)
      → Rooted s
      → Inv t
      → s.proxies.count ≤ t.count
      → Rooted (env_for net (r, t) s).1
  unfolding env_for
  env_for-Rooted (done (res, env)) t s v w le =
      let (x, e) = request_behind env (codes "Root") t w in
      root_for-Rooted (agent_request net env (codes "Root") t).0 _ s v x (omega (arith, e, le))
  env_for-Rooted (thrown what) t s v w le = kept t s v w le
  env_for-Rooted asserted t s v w le = kept t s v w le
  env_for-Rooted null_access t s v w le = kept t s v w le
  env_for-Rooted out_of_fuel t s v w le = kept t s v w le

  -- AddElemRmt, however its requests end, keeps the invariant of the proxies, and the root that it
  -- leaves is one of them.
  pub add_elem_rmt-Rooted :
      (spec : Text) (s : Renv N) → Rooted s → Rooted (add_elem_rmt net spec s).1
  unfolding add_elem_rmt
  add_elem_rmt-Rooted spec s v =
      let (x, e) =
        request_behind (codes "EnvProvider") (codes "CreateEnv,1," ++ spec) s.proxies v.inv in
      env_for-Rooted
        (agent_request net (codes "EnvProvider") (codes "CreateEnv,1," ++ spec) s.proxies).0 _ s v x
        (omega (arith, e))
