-- ===== src/Served/Again.antt =====
-- The same GetNode of a proxy again, with the agent connected to a session of the server.
use fap2_srv.Prelude.{
  ℕ, Text, codes, has, text_key, Option, none, some, [], ◌++◌, Bool, true, false, ◌≡◌, refl, sym,
  ap, ◌∙◌, subst,
}
use fap2_srv.Fap.{Fap, ok}
use fap2_srv.Server.{extern}
use fap2_srv.Session.{get_context, uid}
use fap2_srv.Handler.Repeat.{has-insert, extern-Returns, still_found}
use fap2_srv.Client.Wire.{IsRequest}
use fap2_srv.Proxy.{Proxies, Run, thrown, get_node}
use fap2_srv.Proxy.Cache.{Inv, NodeFate, refused, cached, made, escaped}
use fap2_srv.Proxy.Invariant.{get_node-Inv}
use fap2_srv.Served.{Line, line}
use fap2_srv.Served.Requests.{answer, Made}
use fap2_srv.Served.Nodes.{
  agent_request_fatal, Points, asked, told, told-state, fate_of, first_given,
}

module _ {W : Type 0} (fap : Fap W) (a p r j : ℕ) (uri u : Text) where
  -- The same GetNode in the state behind it.
  second_Made :
      (s t : Proxies (Line W))
      → Points fap a p r j uri u s
      → t.net ≡ record s.net { server = told fap a p r j uri u s }
      → (t.px p).context ≡ (s.px p).context
      → Made fap a
          (t.px p).context
          (codes "GetNode,1," ++ uri)
          t.net
          (ok (some (extern j), []))
          (asked fap a p r j uri u t)
  second_Made s t h net same =
      let (ctx, att) = told-state fap a p r j uri u s h in
      let kept : get_context a (s.px p).context (told fap a p r j uri u s) ≡ some (extern r) =
        still_found fap a (s.px p).context u (extern j) (extern r) s.net.server
          (told fap a p r j uri u s) h.alone att ctx h.new h.found in
      record {
        iface = extern r;
        up = ap (λ (n : Line W). n.up) net ∙ h.up;
        form = subst (λ (c : Text). IsRequest c (codes "GetNode,1," ++ uri)) (sym same) h.form;
        found =
            ap (λ (c : Text). get_context a c t.net.server) same
            ∙ ap (λ (n : Line W). get_context a (s.px p).context n.server) net
            ∙ kept;
        called = extern-Returns fap r j (codes "GetNode,1," ++ uri) u t.net.server h.rets;
      }

  second_answer :
      (s t : Proxies (Line W))
      → Points fap a p r j uri u s
      → t.net ≡ record s.net { server = told fap a p r j uri u s }
      → answer fap a (ok (some (extern j), [])) (asked fap a p r j uri u t) ≡ none
  unfolding answer uid
  second_answer s t h net =
      let taken : has u (t.net.server.sessions a).ctx ≡ true =
        ap (λ (n : Line W). has u (n.server.sessions a).ctx) net
        ∙ ap (has u) (told-state fap a p r j uri u s h).0
        ∙ has-insert u (some (extern j)) (s.net.server.sessions a).ctx in
      rw (h.rets.uid (asked fap a p r j uri u t).world, taken)

  thrown_out :
      (reply : Run (Bool × Text)) (t : Proxies (Line W)) (g : Run (Option ℕ) × Proxies (Line W))
      → NodeFate p reply t g
      → reply ≡ thrown (codes "length_error")
      → g ≡ (thrown (codes "length_error"), t)
  thrown_out reply t g (refused text e f) h = absurd (cc)
  thrown_out reply t g (cached resp q e old f) h = absurd (cc)
  thrown_out reply t g (made resp e new f) h = absurd (cc)
  thrown_out reply t g (escaped what e f) h =
      let same : what ≡ codes "length_error" = cc in rw same at f

  -- Under the conditions of get_node_served, the same GetNode again throws length_error out of the
  -- proxy, and the connection is gone: the cache of proxies is never asked, since the server dies
  -- of the second request for an interface that is a context already.
  pub get_node_twice :
      (s : Proxies (Line W))
      → Points fap a p r j uri u s
      → let t = (get_node (line fap a) p uri s).1 in
        ((get_node (line fap a) p uri t).0 ≡ thrown (codes "length_error"))
        × ((get_node (line fap a) p uri t).1.net.up ≡ false)
  get_node_twice s h =
      let (q, t, e, context, net, same, below) = first_given fap a p r j uri u s h in
      let inv : Inv t =
        subst (λ (x : Run (Option ℕ) × Proxies (Line W)). Inv x.1) e
          (get_node-Inv (line fap a) p uri s h.inv h.below) in
      let out =
        thrown_out _ _ _
          (fate_of fap a p r j uri u t _ _ inv below (
            agent_request_fatal fap a (t.px p).context (codes "GetNode,1," ++ uri) t
              (ok (some (extern j), [])) (asked fap a p r j uri u t)
              (ap (λ (n : Line W). n.inbox) net ∙ h.read) (second_Made s t h net same)
              (second_answer s t h net)))
          refl in
      rw (e, out) (refl, refl)
