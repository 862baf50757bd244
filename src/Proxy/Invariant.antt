-- ===== src/Proxy/Invariant.antt =====
-- The invariant of the registered proxies along GetNode, and what it gives.
use fap2_srv.Prelude.{
  ℕ, ◌<◌, Text, text_eq_self, text_eq-eq, codes, has, at, at-insert, has-at, text_key, Option, some,
  Bool, true, false, ◌++◌, ◌≡◌, sym, ap, subst, ◌∙◌, arith,
}
use fap2_srv.Client.{Net}
use fap2_srv.Proxy.{Proxies, Run, done, agent_request, get_node}
use fap2_srv.Proxy.Cache.{
  Inv, registered, NodeFate, refused, cached, made, escaped, get_node-Fate, agent_request-state,
}
use fap2_srv.Proxy.Forward.{Older}

module _ {N : Type 0} where
  registered-Older :
      (p : ℕ) (resp : Text) (s : Proxies N) → Inv s → p < s.count → Older (registered p resp s)
  registered-Older p resp s v h p' q = ground (arith, v.older p' q, v.older p q)

  registered-context :
      (p : ℕ) (resp : Text) (s : Proxies N)
      → Inv s
      → p < s.count
      → has resp (s.px p).proxies ≡ false
      → let t = registered p resp s in
        (p' q : ℕ) (k : Text)
        → p' < t.count
        → at k (t.px p').proxies ≡ some q
        → (q < t.count) × ((t.px q).context ≡ k) × ((t.px q).mgr ≡ some p')
  unfolding at
  registered-context p resp s v h new p' q k b e = ground (
    arith,
    at-insert resp k s.count (s.px p).proxies new,
    text_eq-eq resp k,
    v.context p' q k,
    v.context p q k,
  )

  registered-Inv :
      (p : ℕ) (resp : Text) (s : Proxies N)
      → Inv s
      → p < s.count
      → has resp (s.px p).proxies ≡ false
      → Inv (registered p resp s)
  registered-Inv p resp s v h new = record {
    older = registered-Older p resp s v h;
    context = registered-context p resp s v h new;
  }

  -- A proxy that GetNode of `p` has given: one that is registered with `p` under its context.
  pub record IsNode (p q : ℕ) (t : Proxies N) : Type 0 where
    pub below : q < t.count
    pub mgr : (t.px q).mgr ≡ some p
    pub cached : at (t.px q).context (t.px p).proxies ≡ some q

  new-IsNode :
      (p : ℕ) (resp : Text) (s : Proxies N)
      → p < s.count
      → has resp (s.px p).proxies ≡ false
      → IsNode p s.count (registered p resp s)
  new-IsNode p resp s h new = record {
    below = omega arith;
    mgr = ground arith;
    cached = ground (arith, at-insert resp resp s.count (s.px p).proxies new, text_eq_self resp);
  }

  old-IsNode :
      (p q : ℕ) (resp : Text) (s : Proxies N)
      → Inv s
      → p < s.count
      → at resp (s.px p).proxies ≡ some q
      → IsNode p q s
  old-IsNode p q resp s v h e =
      let (below, context, mgr) = v.context p q resp h e in
      record { below = below; mgr = mgr; cached = rw context e }

module _ {N : Type 0} (net : Net N) where
  pub behind-Inv :
      (context req : Text) (s : Proxies N) → Inv s → Inv (agent_request net context req s).1
  behind-Inv context req s v =
      let (n, e) = agent_request-state net context req s in
      subst (λ (t : Proxies N). Inv t) (sym e) (record { older = v.older; context = v.context })

  pub behind-count :
      (context req : Text) (s : Proxies N) → (agent_request net context req s).1.count ≡ s.count
  behind-count context req s =
      let (n, e) = agent_request-state net context req s in ap (λ (t : Proxies N). t.count) e

  -- GetNode keeps the invariant.
  pub get_node-Inv :
      (p : ℕ) (uri : Text) (s : Proxies N) → Inv s → p < s.count → Inv (get_node net p uri s).1
  get_node-Inv p uri s v h =
      kept _ _ _ (get_node-Fate net p uri s v h)
        (behind-Inv (s.px p).context (codes "GetNode,1," ++ uri) s v)
        (rw (behind-count (s.px p).context (codes "GetNode,1," ++ uri) s) h)
    where
      kept :
          (reply : Run (Bool × Text)) (t : Proxies N) (r : Run (Option ℕ) × Proxies N)
          → NodeFate p reply t r
          → Inv t
          → p < t.count
          → Inv r.1
      kept reply t r (refused text e f) w b = rw f w
      kept reply t r (cached resp q e old f) w b = rw f w
      kept reply t r (made resp e new f) w b = rw f (registered-Inv p resp t w b new)
      kept reply t r (escaped what e f) w b = rw f w

  get_node-IsNode :
      (p q : ℕ) (uri : Text) (s : Proxies N)
      → Inv s
      → p < s.count
      → (get_node net p uri s).0 ≡ done (some q)
      → IsNode p q (get_node net p uri s).1
  get_node-IsNode p q uri s v h found =
      given _ _ _ (get_node-Fate net p uri s v h)
        (behind-Inv (s.px p).context (codes "GetNode,1," ++ uri) s v)
        (rw (behind-count (s.px p).context (codes "GetNode,1," ++ uri) s) h) found
    where
      given :
          (reply : Run (Bool × Text)) (t : Proxies N) (r : Run (Option ℕ) × Proxies N)
          → NodeFate p reply t r
          → Inv t
          → p < t.count
          → r.0 ≡ done (some q)
          → IsNode p q r.1
      given reply t r (refused text e f) w b g = absurd (cc)
      given reply t r (cached resp q' e old f) w b g =
          let same : q' ≡ q = cc in
          rw f (subst (λ (k : ℕ). IsNode p k t) same (old-IsNode p q' resp t w b old))
      given reply t r (made resp e new f) w b g =
          let same : t.count ≡ q = cc in
          rw f
            (subst (λ (k : ℕ). IsNode p k (registered p resp t)) same (new-IsNode p resp t b new))
      given reply t r (escaped what e f) w b g = absurd (cc)

  known_again :
      (p q : ℕ) (uri : Text) (t : Proxies N)
      → Inv t
      → p < t.count
      → IsNode p q t
      → (agent_request net (t.px p).context (codes "GetNode,1," ++ uri) t).0
        ≡ done (true, (t.px q).context)
      → get_node net p uri t
        ≡ (done (some q), (agent_request net (t.px p).context (codes "GetNode,1," ++ uri) t).1)
  known_again p q uri t v h node reply = same _ _ _ (get_node-Fate net p uri t v h) reply (
      let (n, e) = agent_request-state net (t.px p).context (codes "GetNode,1," ++ uri) t in
      ap (λ (u : Proxies N). at (t.px q).context (u.px p).proxies) e ∙ node.cached)
    where
      same :
          (reply : Run (Bool × Text)) (u : Proxies N) (r : Run (Option ℕ) × Proxies N)
          → NodeFate p reply u r
          → reply ≡ done (true, (t.px q).context)
          → at (t.px q).context (u.px p).proxies ≡ some q
          → r ≡ (done (some q), u)
      same reply u r (refused text e f) g c = absurd (cc)
      same reply u r (cached resp q' e old f) g c =
          let k : resp ≡ (t.px q).context = cc in
          let m : q' ≡ q = cc (rw k at old) in f ∙ ap (λ (n : ℕ). (done (some n), u)) m
      same reply u r (made resp e new f) g c =
          let k : resp ≡ (t.px q).context = cc in
          absurd (cc (rw k at new, has-at (t.px q).context (u.px p).proxies, c))
      same reply u r (escaped what e f) g c = absurd (cc)

  -- A node that GetNode of a proxy has given is given again, by the same proxy and with no new one,
  -- whenever the server answers a later GetNode, of whatever uri, with that node's context.
  pub get_node-again :
      (p q : ℕ) (uri uri' : Text) (s t : Proxies N)
      → Inv s
      → p < s.count
      → get_node net p uri s ≡ (done (some q), t)
      → (agent_request net (t.px p).context (codes "GetNode,1," ++ uri') t).0
        ≡ done (true, (t.px q).context)
      → get_node net p uri' t
        ≡ (done (some q), (agent_request net (t.px p).context (codes "GetNode,1," ++ uri') t).1)
  get_node-again p q uri uri' s t v h found reply =
      let first = ap (λ (r : Run (Option ℕ) × Proxies N). r.0) found in
      let second = ap (λ (r : Run (Option ℕ) × Proxies N). r.1) found in
      let w : Inv t = subst (λ (u : Proxies N). Inv u) second (get_node-Inv p uri s v h) in
      let node : IsNode p q t =
        subst (λ (u : Proxies N). IsNode p q u) second (get_node-IsNode p q uri s v h first) in
      known_again p q uri' t w (omega (arith, node.below, w.older q p node.below node.mgr)) node
        reply
