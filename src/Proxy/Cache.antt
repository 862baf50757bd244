-- ===== src/Proxy/Cache.antt =====
-- The proxies of nodes that were asked for before.
use fap2_srv.Prelude.{
  ℕ, suc, ◌<◌, ◌==◌, Text, codes, Map, has, at, insert, has-at, text_key, Option, none, some,
  Option-cases, Bool-cases, inl, inr, ◌++◌, Bool, true, false, ◌≡◌, refl, sym, subst, arith,
  ==_self,
}
use fap2_srv.Server.{update}
use fap2_srv.Client.{Net, Result, returned, raised, length_error}
use fap2_srv.Proxy.{
  Proxies, Run, run_of, done, thrown, asserted, null_access, out_of_fuel, after, new_px,
  agent_request, is_cached, reg_proxy, get_proxy, node_for, get_node,
}
use fap2_srv.Proxy.Forward.{Older, ask-agent}

-- The proxies that a proxy has registered.
pub record Inv {N : Type 0} (s : Proxies N) : Type 0 where
  pub older : Older s
  pub context :
      (p q : ℕ) (k : Text)
      → p < s.count
      → at k (s.px p).proxies ≡ some q
      → (q < s.count) × ((s.px q).context ≡ k) × ((s.px q).mgr ≡ some p)

module _ {N : Type 0} where
  -- A new proxy, registered under its context.
  abbrev pub registered : ℕ → Text → Proxies N → Proxies N
  registered p resp s = record s {
    px =
        update (update s.px s.count (new_px (some p) resp)) p
          (record (s.px p) { proxies = insert resp s.count (s.px p).proxies });
    count = suc s.count;
  }

  node_for-new :
      (p : ℕ) (resp : Text) (s : Proxies N)
      → p < s.count
      → has resp (s.px p).proxies ≡ false
      → node_for p (true, resp) s ≡ (done (some s.count), registered p resp s)
  unfolding node_for
  node_for-new p resp s h new =
      let ne : (s.count == p) ≡ false = ground arith in
      rw (new, is_cached) (rw (==_self s.count, ne, new, reg_proxy))

  node_for-old :
      (p q : ℕ) (resp : Text) (s : Proxies N)
      → at resp (s.px p).proxies ≡ some q
      → node_for p (true, resp) s ≡ (done (some q), s)
  unfolding node_for
  node_for-old p q resp s old =
      rw (has-at resp (s.px p).proxies, old, is_cached) (rw (old, get_proxy))

-- How GetNode ends, from the reply to its request and the state behind the request.
pub data NodeFate {N : Type 0} (p : ℕ) (reply : Run (Bool × Text)) (t : Proxies N)
    (r : Run (Option ℕ) × Proxies N) : Type 0 where
  -- the request failed: NULL
  refused : (text : Text) → reply ≡ done (false, text) → r ≡ (done none, t) → NodeFate p reply t r
  -- the node was asked for before: the same proxy again, and nothing changes
  cached :
      (resp : Text) (q : ℕ)
      → reply ≡ done (true, resp)
      → at resp (t.px p).proxies ≡ some q
      → r ≡ (done (some q), t)
      → NodeFate p reply t r
  -- a new proxy, registered under the reply
  made :
      (resp : Text)
      → reply ≡ done (true, resp)
      → has resp (t.px p).proxies ≡ false
      → r ≡ (done (some t.count), registered p resp t)
      → NodeFate p reply t r
  -- the client threw
  escaped : (what : Text) → reply ≡ thrown what → r ≡ (thrown what, t) → NodeFate p reply t r

has-some : {V : Type 0} (k : Text) (m : Map Text V) → has k m ≡ true → (v : V) × (at k m ≡ some v)
has-some k m h = elim (Option-cases (at k m)) [
  | inl e ↦ absurd (cc (rw (has-at k m, e) at h))
  | inr (v, e) ↦ (v, e)
]

module _ {N : Type 0} (net : Net N) where
  -- Only the state of the network differs behind a request of the agent.
  pub agent_request-state :
      (context req : Text) (s : Proxies N)
      → (n : N) × ((agent_request net context req s).1 ≡ record s { net = n })
  unfolding agent_request
  agent_request-state context req s = (_, refl)

  replied :
      (p : ℕ) (reply : Run (Bool × Text)) (t : Proxies N)
      → p < t.count
      → (reply ≡ asserted → ⊥)
      → (reply ≡ null_access → ⊥)
      → (reply ≡ out_of_fuel → ⊥)
      → NodeFate p reply t (after (reply, t) (node_for p))
  unfolding node_for
  replied p (done (false, text)) t h na nn nf = refused text refl refl
  replied p (done (true, resp)) t h na nn nf = elim (Bool-cases (has resp (t.px p).proxies)) [
    | inl old ↦
        let (q, e) = has-some resp (t.px p).proxies old in
        cached resp q refl e (node_for-old p q resp t e)
    | inr new ↦ made resp refl new (node_for-new p resp t h new)
  ]
  replied p (thrown what) t h na nn nf = escaped what refl refl
  replied p asserted t h na nn nf = absurd (na refl)
  replied p null_access t h na nn nf = absurd (nn refl)
  replied p out_of_fuel t h na nn nf = absurd (nf refl)

  agent_request-plain :
      (context req : Text) (s : Proxies N)
      → ((agent_request net context req s).0 ≡ asserted → ⊥)
        × ((agent_request net context req s).0 ≡ null_access → ⊥)
        × ((agent_request net context req s).0 ≡ out_of_fuel → ⊥)
  unfolding agent_request
  agent_request-plain context req s = plain_run _
    where
      plain_run :
          (r : Result (Bool × Text))
          → (run_of r ≡ asserted → ⊥) × (run_of r ≡ null_access → ⊥) × (run_of r ≡ out_of_fuel → ⊥)
      plain_run (returned a) = (λ e. cc, λ e. cc, λ e. cc)
      plain_run (raised what) = (λ e. cc, λ e. cc, λ e. cc)
      plain_run length_error = (λ e. cc, λ e. cc, λ e. cc)

  -- GetNode asks the agent for the node in the context of its proxy and ends in one of four ways:
  -- no assertion of RegProxy or GetProxy fails, and the chain of managers ends.
  pub get_node-Fate :
      (p : ℕ) (uri : Text) (s : Proxies N)
      → Inv s
      → p < s.count
      → let (reply, t) = agent_request net (s.px p).context (codes "GetNode,1," ++ uri) s in
        NodeFate p reply t (get_node net p uri s)
  unfolding get_node
  get_node-Fate p uri s v h =
      let plain = agent_request-plain (s.px p).context (codes "GetNode,1," ++ uri) s in
      let (n, e) = agent_request-state (s.px p).context (codes "GetNode,1," ++ uri) s in
      rw (ask-agent net p (codes "GetNode,1," ++ uri) s v.older h)
        (replied p _ _ (subst (λ (t : Proxies N). p < t.count) (sym e) h) plain.0 plain.1 plain.2)
