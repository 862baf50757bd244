-- ===== src/Served/Nodes.antt =====
-- Proxies of dmas/melempx.cpp whose agent is connected to a session of the server.
use fap2_srv.Prelude.{
  ℕ, ◌≤◌, ◌<◌, Text, codes, Avoids, text_eq_self, has, at-insert, insert, text_key, Option, none,
  some, [], ◌∷◌, ◌++◌, append_assoc, Bool, true, false, length, ◌≡◌, refl, sym, ◌∙◌, subst, arith,
}
use fap2_srv.Fap.{Fap, Outcome, ok}
use fap2_srv.Server.{Iface, extern, Server}
use fap2_srv.Session.{get_context, uid}
use fap2_srv.Handler.{catching}
use fap2_srv.Handler.Repeat.{Returns, own_context, extern-Returns, respond-state}
use fap2_srv.Client.{request_args}
use fap2_srv.Client.Wire.{IsRequest}
use fap2_srv.Proxy.{Proxies, Run, done, thrown, agent_request, get_node}
use fap2_srv.Proxy.Cache.{Inv, registered, NodeFate, refused, cached, made, escaped, get_node-Fate}
use fap2_srv.Served.{Line, line}
use fap2_srv.Served.Requests.{answer, Made, request_served, request_fatal}

module _ {W : Type 0} (fap : Fap W) where
  -- A request of the agent that the server answers.
  pub agent_request_served :
      (a : ℕ) (ctx spec : Text) (s : Proxies (Line W)) (r : Outcome (Option Iface × Text))
      (t : Server W) (st : Bool) (args : Text)
      → s.net.inbox ≡ []
      → Made fap a ctx spec s.net r t
      → answer fap a r t ≡ some (st, args)
      → Avoids (0 ∷ []) args
      → length args ≤ 510
      → agent_request (line fap a) ctx spec s
        ≡ (done (st, args), record s { net = record s.net { server = (catching fap a (r, t)).1 } })
  unfolding agent_request request_args
  agent_request_served a ctx spec s r t st args empty m e clean short = rw (
    append_assoc ctx (32 ∷ []) spec,
    request_served fap a s.client ctx spec s.net r t st args empty m e clean short,
  )

  -- A request of the agent that ends the server.
  pub agent_request_fatal :
      (a : ℕ) (ctx spec : Text) (s : Proxies (Line W)) (r : Outcome (Option Iface × Text))
      (t : Server W)
      → s.net.inbox ≡ []
      → Made fap a ctx spec s.net r t
      → answer fap a r t ≡ none
      → agent_request (line fap a) ctx spec s ≡ (
        thrown (codes "length_error"),
        record s { net = record s.net { server = t; up = false } },
      )
  unfolding agent_request request_args
  agent_request_fatal a ctx spec s r t empty m e =
      rw
        (append_assoc ctx (32 ∷ []) spec, request_fatal fap a s.client ctx spec s.net r t empty m e)

-- A proxy whose context leads the session at the other end, which is attached to no other, to an
-- object of the library. The object answers the GetNode of the uri with one interface always, whose
-- Uid is no context yet and fits into a reply.
pub record Points {W : Type 0} (fap : Fap W) (a p r j : ℕ) (uri u : Text) (s : Proxies (Line W))
    : Type 0 where
  pub inv : Inv s
  pub below : p < s.count
  pub up : s.net.up ≡ true
  pub read : s.net.inbox ≡ []
  pub form : IsRequest (s.px p).context (codes "GetNode,1," ++ uri)
  pub alone : (s.net.server.sessions a).attached ≡ none
  pub found : get_context a (s.px p).context s.net.server ≡ some (extern r)
  pub rets : Returns fap r j (codes "GetNode,1," ++ uri) u
  pub new : has u (s.net.server.sessions a).ctx ≡ false
  pub clean : Avoids (0 ∷ []) u
  pub short : length u ≤ 510

module _ {W : Type 0} (fap : Fap W) (a p r j : ℕ) (uri u : Text) where
  -- The server behind the call of the object.
  abbrev pub asked : Proxies (Line W) → Server W
  asked s = record s.net.server {
    world = (fap.call r (codes "GetNode,1," ++ uri) s.net.server.world).1;
  }

  -- The server behind its answer.
  abbrev pub told : Proxies (Line W) → Server W
  told s = (catching fap a (ok (some (extern j), []), asked s)).1

  Points-Made :
      (s : Proxies (Line W))
      → Points fap a p r j uri u s
      → Made fap a
          (s.px p).context
          (codes "GetNode,1," ++ uri)
          s.net
          (ok (some (extern j), []))
          (asked s)
  Points-Made s h = record {
    iface = extern r;
    up = h.up;
    form = h.form;
    found = h.found;
    called = extern-Returns fap r j (codes "GetNode,1," ++ uri) u s.net.server h.rets;
  }

  answer-new :
      (s : Proxies (Line W))
      → Points fap a p r j uri u s
      → answer fap a (ok (some (extern j), [])) (asked s) ≡ some (true, u)
  unfolding answer uid
  answer-new s h = rw (h.rets.uid (asked s).world, h.new)

  pub told-state :
      (s : Proxies (Line W))
      → Points fap a p r j uri u s
      → (((told s).sessions a).ctx ≡ insert u (some (extern j)) (s.net.server.sessions a).ctx)
        × (((told s).sessions a).attached ≡ (s.net.server.sessions a).attached)
  unfolding catching
  told-state s h =
      let (fine, ctx, att) =
        respond-state fap a j u s.net.server (asked s).world (h.rets.uid (asked s).world) h.new in
      (ctx, att)

  -- The reply that the proxy's request gets.
  first_reply :
      (s : Proxies (Line W))
      → Points fap a p r j uri u s
      → agent_request (line fap a) (s.px p).context (codes "GetNode,1," ++ uri) s
        ≡ (done (true, u), record s { net = record s.net { server = told s } })
  first_reply s h =
      agent_request_served fap a (s.px p).context (codes "GetNode,1," ++ uri) s
        (ok (some (extern j), [])) (asked s) true u h.read (Points-Made s h) (answer-new s h)
        h.clean h.short

  told-context :
      (s : Proxies (Line W))
      → Points fap a p r j uri u s
      → get_context a u (told s) ≡ some (extern j)
  told-context s h =
      let (ctx, att) = told-state s h in
      rw (
        own_context fap a u (told s) (att ∙ h.alone),
        ctx,
        at-insert u u (some (extern j)) (s.net.server.sessions a).ctx h.new,
        text_eq_self u,
      )

  -- How GetNode ends, from the request of the agent.
  pub fate_of :
      (s t : Proxies (Line W)) (reply : Run (Bool × Text))
      → Inv s
      → p < s.count
      → agent_request (line fap a) (s.px p).context (codes "GetNode,1," ++ uri) s ≡ (reply, t)
      → NodeFate p reply t (get_node (line fap a) p uri s)
  fate_of s t reply v below e =
      subst
        (λ (x : Run (Bool × Text) × Proxies (Line W)).
          NodeFate p x.0 x.1 (get_node (line fap a) p uri s))
        e (get_node-Fate (line fap a) p uri s v below)

  -- GetNode after a reply that succeeded.
  given :
      (reply : Run (Bool × Text)) (t : Proxies (Line W)) (g : Run (Option ℕ) × Proxies (Line W))
      → NodeFate p reply t g
      → reply ≡ done (true, u)
      → Inv t
      → p < t.count
      → (q : ℕ) × (v : Proxies (Line W)) × (g ≡ (done (some q), v))
        × ((v.px q).context ≡ u)
        × (v.net ≡ t.net)
        × ((v.px p).context ≡ (t.px p).context)
        × (p < v.count)
  given reply t g (refused text e f) done_u v below = absurd (cc)
  given reply t g (escaped what e f) done_u v below = absurd (cc)
  given reply t g (cached resp q e old f) done_u v below =
      let same : resp ≡ u = cc in
      (q, t, f, (v.context p q resp below old).1 ∙ same, refl, refl, below)
  given reply t g (made resp e new f) done_u v below =
      let same : resp ≡ u = cc in
      (t.count, registered p resp t, f, ground (arith), refl, ground arith, omega arith)

  pub first_given :
      (s : Proxies (Line W))
      → Points fap a p r j uri u s
      → (q : ℕ) × (v : Proxies (Line W)) × (get_node (line fap a) p uri s ≡ (done (some q), v))
        × ((v.px q).context ≡ u)
        × (v.net ≡ record s.net { server = told s })
        × ((v.px p).context ≡ (s.px p).context)
        × (p < v.count)
  first_given s h =
      let t = record s { net = record s.net { server = told s } } in
      given _ t _ (fate_of s t _ h.inv h.below (first_reply s h)) refl
        (record { older = h.inv.older; context = h.inv.context }) h.below

  -- With the agent connected to a session that is attached to no other, GetNode of a proxy whose
  -- context leads the session to an object gives a proxy whose context leads the session to the
  -- interface that the object returns, if the request fits the buffer, the object always returns
  -- this interface, and its Uid is no context yet, holds no NUL and has at most 510 bytes.
  pub get_node_served :
      (s : Proxies (Line W))
      → Points fap a p r j uri u s
      → (q : ℕ) × (t : Proxies (Line W)) × (get_node (line fap a) p uri s ≡ (done (some q), t))
        × ((t.px q).context ≡ u)
        × (get_context a u t.net.server ≡ some (extern j))
  get_node_served s h =
      let (q, t, e, context, net, same, below) = first_given s h in
      (
        q,
        t,
        e,
        context,
        subst (λ (n : Line W). get_context a u n.server ≡ some (extern j)) (sym net)
            (told-context s h),
      )
