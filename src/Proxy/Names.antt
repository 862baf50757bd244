-- ===== src/Proxy/Names.antt =====
-- The name of a proxy when the server can no longer be asked for it.
use fap2_srv.Prelude.{
  ℕ, ◌<◌, if◌then◌else◌, Text, codes, Bool, true, false, ◌≡◌, refl, sym, ap, subst, ◌∙◌, arith,
}
use fap2_srv.Server.{update}
use fap2_srv.Client.{Net}
use fap2_srv.Proxy.{
  Proxies, Method, Run, done, thrown, asserted, null_access, out_of_fuel, after, agent_request,
  name,
}
use fap2_srv.Proxy.Forward.{Older, ask-agent}
use fap2_srv.Proxy.Cache.{agent_request-state}

-- What Name does with the reply.
abbrev named : {N : Type 0} → ℕ → Bool × Text → Method N Text
named p (res, resp) s =
    if res
    then (done resp, record s { px = update s.px p (record (s.px p) { name = resp }) })
    else (done (s.px p).name, s)

-- The states have the same tree of proxies.
record Kept {N : Type 0} (p : ℕ) (n : Text) (s t : Proxies N) : Type 0 where
  name : (t.px p).name ≡ n
  context : (t.px p).context ≡ (s.px p).context
  count : t.count ≡ s.count
  mgr : (q : ℕ) → (t.px q).mgr ≡ (s.px q).mgr

named-Kept :
    {N : Type 0} (p : ℕ) (n : Text) (r : Run (Bool × Text)) (s t : Proxies N)
    → after (r, s) (named p) ≡ (done n, t)
    → Kept p n s t
named-Kept p n (done (true, resp)) s t h =
    let e : resp ≡ n = cc in
    subst (Kept p n s) (ap (λ (r : Run Text × Proxies _). r.1) h) (record {
      name = ground (arith, e);
      context = ground arith;
      count = refl;
      mgr = λ q. ground arith;
    })
named-Kept p n (done (false, resp)) s t h =
    let e : (s.px p).name ≡ n = cc in
    subst (Kept p n s) (ap (λ (r : Run Text × Proxies _). r.1) h)
      (record { name = e; context = refl; count = refl; mgr = λ q. refl })
named-Kept p n (thrown what) s t h = absurd (cc)
named-Kept p n asserted s t h = absurd (cc)
named-Kept p n null_access s t h = absurd (cc)
named-Kept p n out_of_fuel s t h = absurd (cc)

module _ {N : Type 0} (net : Net N) where
  name_of_reply :
      (p : ℕ) (s : Proxies N)
      → Older s
      → p < s.count
      → name net p s ≡ after (agent_request net (s.px p).context (codes "Name") s) (named p)
  unfolding name
  name_of_reply p s older h = ap (λ r. after r (named p)) (ask-agent net p (codes "Name") s older h)

  failed :
      (p : ℕ) (n why : Text) (r : Run (Bool × Text)) (u : Proxies N)
      → r ≡ done (false, why)
      → (u.px p).name ≡ n
      → (after (r, u) (named p)).0 ≡ done n
  failed p n why (done (true, resp)) u e f = absurd (cc)
  failed p n why (done (false, resp)) u e f = ap (λ (m : Text). done m) f
  failed p n why (thrown what) u e f = absurd (cc)
  failed p n why asserted u e f = absurd (cc)
  failed p n why null_access u e f = absurd (cc)
  failed p n why out_of_fuel u e f = absurd (cc)

  -- Name gives the name that it gave before, if the request for it now fails.
  pub name-kept :
      (p : ℕ) (n why : Text) (s t : Proxies N)
      → Older s
      → p < s.count
      → name net p s ≡ (done n, t)
      → (agent_request net (s.px p).context (codes "Name") t).0 ≡ done (false, why)
      → (name net p t).0 ≡ done n
  name-kept p n why s t older h first fails =
      let (m, e) = agent_request-state net (s.px p).context (codes "Name") s in
      let k : Kept p n (record s { net = m }) t =
        subst (λ (u : Proxies N). Kept p n u t) e
          (named-Kept p n _ _ t (sym (name_of_reply p s older h) ∙ first)) in
      let older' : Older t =
        λ a b less mgr. older a b (subst (λ (c : ℕ). a < c) k.count less) (sym (k.mgr a) ∙ mgr) in
      rw (name_of_reply p t older' (subst (λ (c : ℕ). p < c) (sym k.count) h), k.context)
        (failed p n why _ _ fails (
          ap (λ (u : Proxies N). (u.px p).name)
            (agent_request-state net (s.px p).context (codes "Name") t).1
          ∙ k.name))
