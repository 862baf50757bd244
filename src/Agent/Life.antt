-- ===== src/Agent/Life.antt =====
-- The agent ARenv and its proxies, from the constructor on, over any calls of their methods.
use fap2_srv.Prelude.{
  ℕ, if◌then◌else◌, ◌<◌, ◌≤◌, Text, codes, text_eq, at, text_key, Option, none, [], Bool-cases, inl,
  inr, ◌++◌, Bool, true, false, ◌≡◌, ap, arith,
}
use fap2_srv.Server.{update}
use fap2_srv.Client.{Net, new_base_client, connect}
use fap2_srv.Proxy.{
  Proxies, Run, done, thrown, asserted, null_access, out_of_fuel, Method, after, new_px,
  agent_request, ask, get_node, name, get_cont,
}
use fap2_srv.Proxy.Cache.{
  Inv, NodeFate, refused, cached, made, escaped, get_node-Fate, agent_request-state,
}
use fap2_srv.Proxy.Forward.{ask-agent}
use fap2_srv.Proxy.Invariant.{get_node-Inv, behind-Inv, behind-count}
use fap2_srv.Agent.{Renv, connected, reconnect, change_cont, add_elem_rmt, request}
use fap2_srv.Agent.Types.{named_renv}
use fap2_srv.Agent.Root.{Rooted, kept, add_elem_rmt-Rooted}

module _ {N : Type 0} (net : Net N) where
  -- An agent that was constructed with its client, and no proxies.
  unfoldable pub born : Text → N → Renv N
  unfolding named_renv new_base_client
  born agent n =
      let (c, m) = new_base_client net n in
      (named_renv agent (record { px = λ p. new_px none []; count = 0; client = c; net = m })).1

  -- A call of a method of the agent or of one of its proxies.
  pub data Act (s : Renv N) : Renv N → Type 0 where
    changes : (val : Text) (rt_only : Bool) → Act s (change_cont net val rt_only s).1
    adds : (spec : Text) → Act s (add_elem_rmt net spec s).1
    requests : (context req : Text) → Act s (request net context req s).1
    gets_node :
        (p : ℕ) (uri : Text)
        → p < s.proxies.count
        → Act s (record s { proxies = (get_node net p uri s.proxies).1 })
    gets_name :
        (p : ℕ) → p < s.proxies.count → Act s (record s { proxies = (name net p s.proxies).1 })
    gets_cont :
        (p : ℕ) (cont_name : Text)
        → p < s.proxies.count
        → Act s (record s { proxies = (get_cont net p cont_name s.proxies).1 })

  pub data Life (agent : Text) (n : N) : Renv N → Type 0 where
    starts : Life agent n (born agent n)
    acts : {s t : Renv N} → Life agent n s → Act s t → Life agent n t

  -- The proxies of `t` are those of `s`, or more of them, and the invariant holds.
  record Grown (s t : Proxies N) : Type 0 where
    inv : Inv t
    more : s.count ≤ t.count

  Grown-Rooted :
      (s : Renv N) (t : Proxies N)
      → Rooted s
      → Grown s.proxies t
      → Rooted (record s { proxies = t })
  Grown-Rooted s t v g = kept net t s v g.inv g.more

  node-Grown :
      (p : ℕ) (uri : Text) (s : Proxies N) → Inv s → p < s.count → Grown s (get_node net p uri s).1
  node-Grown p uri s v h =
      let inv = get_node-Inv net p uri s v h in
      let (n, e) = agent_request-state net (s.px p).context (codes "GetNode,1," ++ uri) s in
      grown _ _ _ (get_node-Fate net p uri s v h) inv (ap (λ (u : Proxies N). u.count) e)
    where
      grown :
          (reply : Run (Bool × Text)) (t : Proxies N) (r : Run (Option ℕ) × Proxies N)
          → NodeFate p reply t r
          → Inv r.1
          → t.count ≡ s.count
          → Grown s r.1
      grown reply t r (refused text e f) inv c = record {
        inv = inv;
        more = rw f (omega (arith, c));
      }
      grown reply t r (cached resp q e old f) inv c = record {
        inv = inv;
        more = rw f (omega (arith, c));
      }
      grown reply t r (made resp e new f) inv c = record {
        inv = inv;
        more = rw f (omega (arith, c));
      }
      grown reply t r (escaped what e f) inv c = record {
        inv = inv;
        more = rw f (omega (arith, c));
      }

  -- A method that makes one request and then changes no count and no registered proxy.
  asked-Grown :
      {A : Type 0} (p : ℕ) (req : Text) (s : Proxies N) (f : Bool × Text → Method N A)
      → Inv s
      → p < s.count
      → ((x : Bool × Text) (t : Proxies N) → Inv t → Grown t (f x t).1)
      → Grown s (after (ask net p req s) f).1
  asked-Grown p req s f v h keep = rw (ask-agent net p req s v.older h) (
      behind (agent_request net (s.px p).context req s).0 _
        (behind-Inv net (s.px p).context req s v) (behind-count net (s.px p).context req s))
    where
      behind :
          (r : Run (Bool × Text)) (t : Proxies N)
          → Inv t
          → t.count ≡ s.count
          → Grown s (after (r, t) f).1
      behind (done x) t w c =
          let g = keep x t w in record { inv = g.inv; more = omega (arith, c, g.more) }
      behind (thrown what) t w c = record { inv = w; more = omega (arith, c) }
      behind asserted t w c = record { inv = w; more = omega (arith, c) }
      behind null_access t w c = record { inv = w; more = omega (arith, c) }
      behind out_of_fuel t w c = record { inv = w; more = omega (arith, c) }

  renamed-Inv :
      (p : ℕ) (text : Text) (t : Proxies N)
      → Inv t
      → Inv (record t { px = update t.px p (record (t.px p) { name = text }) })
  renamed-Inv p text t w = record {
    older = λ i j. ground (arith, w.older i j);
    context = λ i j k. ground (arith, w.context i j k);
  }

  -- The end of Name.
  abbrev renamed : ℕ → Bool × Text → Proxies N → Run Text × Proxies N
  renamed p (res, resp) t =
      if res
      then (done resp, record t { px = update t.px p (record (t.px p) { name = resp }) })
      else (done (t.px p).name, t)

  name-Grown : (p : ℕ) (s : Proxies N) → Inv s → p < s.count → Grown s (name net p s).1
  unfolding name
  name-Grown p s v h = asked-Grown p (codes "Name") s _ v h told
    where
      told : (x : Bool × Text) (t : Proxies N) → Inv t → Grown t (renamed p x t).1
      told (true, resp) t w = record { inv = renamed-Inv p resp t w; more = omega arith }
      told (false, resp) t w = record { inv = w; more = omega arith }

  cont-Grown :
      (p : ℕ) (cont_name : Text) (s : Proxies N)
      → Inv s
      → p < s.count
      → Grown s (get_cont net p cont_name s).1
  unfolding get_cont
  cont-Grown p cont_name s v h =
      asked-Grown p (codes "GetCont,1," ++ cont_name) s _ v h
        λ (res, resp) t w. record { inv = w; more = omega arith }

  reconnect-Rooted :
      (val : Text) (rt_only : Bool) (s : Renv N) → Rooted s → Rooted (reconnect net val rt_only s).1
  unfolding reconnect
  reconnect-Rooted val rt_only s v =
      let w : Inv (record s.proxies { net = (connect net s.proxies.client [] s.proxies.net).1 }) =
        record { older = v.inv.older; context = v.inv.context } in
      elim (Bool-cases (connected (connect net s.proxies.client [] s.proxies.net).0)) [
        | inl e ↦ rw e (record { inv = w; root = v.root })
        | inr e ↦ rw e (record { inv = w; root = v.root })
      ]

  change_cont-Rooted :
      (val : Text) (rt_only : Bool) (s : Renv N)
      → Rooted s
      → Rooted (change_cont net val rt_only s).1
  unfolding change_cont
  change_cont-Rooted val rt_only s v = elim (Bool-cases (text_eq val s.renv_uri)) [
    | inl e ↦ rw e v
    | inr e ↦ rw e (reconnect-Rooted val rt_only s v)
  ]

  Act-Rooted : {s t : Renv N} → Act s t → Rooted s → Rooted t
  unfolding request
  Act-Rooted {s} (changes val rt_only) v = change_cont-Rooted val rt_only s v
  Act-Rooted {s} (adds spec) v = add_elem_rmt-Rooted net spec s v
  Act-Rooted {s} (requests context req) v =
      kept net (agent_request net context req s.proxies).1 s v
        (behind-Inv net context req s.proxies v.inv)
        (omega (arith, behind-count net context req s.proxies))
  Act-Rooted {s} (gets_node p uri h) v = Grown-Rooted s _ v (node-Grown p uri s.proxies v.inv h)
  Act-Rooted {s} (gets_name p h) v = Grown-Rooted s _ v (name-Grown p s.proxies v.inv h)
  Act-Rooted {s} (gets_cont p cont_name h) v =
      Grown-Rooted s _ v (cont-Grown p cont_name s.proxies v.inv h)

  -- In every such state, a manager is older than what it made, a registered proxy has the context
  -- that it is registered under and the registering proxy as its manager, and the root proxy of
  -- the agent, if there is one, exists.
  pub Life-Rooted : {agent : Text} {n : N} {s : Renv N} → Life agent n s → Rooted s
  unfolding born at
  Life-Rooted starts = record {
    inv = record { older = λ p q h e. cc; context = λ p q k h e. cc };
    root = λ r e. cc;
  }
  Life-Rooted (acts l a) = Act-Rooted a (Life-Rooted l)

  -- In every state that an agent and its proxies come to from its constructor, by any calls of
  -- ChangeCont, AddElemRmt, Request, GetNode, Name and GetCont in any order, GetNode of any proxy
  -- asks the agent in the context of that proxy and then returns NULL for a failed request, the
  -- registered proxy for a context that it knows, a new and registered proxy for another, or lets
  -- the exception of the client through: no assertion fails and no chain of managers is endless.
  pub Life-Fate :
      {agent : Text} {n : N} {s : Renv N} (p : ℕ) (uri : Text)
      → Life agent n s
      → p < s.proxies.count
      → let (reply, t) =
          agent_request net (s.proxies.px p).context (codes "GetNode,1," ++ uri) s.proxies in
        NodeFate p reply t (get_node net p uri s.proxies)
  Life-Fate {s = s} p uri l h = get_node-Fate net p uri s.proxies (Life-Rooted l).inv h
