-- ===== src/Served/Root.antt =====
-- AddElemRmt of dmas/renv.cpp with the agent connected to a session of the server.
use fap2_srv.Prelude.{
  ℕ, ◌≤◌, Text, text_eq_self, codes, Avoids, has, at-insert, text_key, none, some, [], ◌∷◌, ◌++◌,
  true, false, length, ◌≡◌, refl, ◌∙◌, arith,
}
use fap2_srv.Fap.{Fap, ok}
use fap2_srv.Server.{session, extern, Server, lift}
use fap2_srv.Session.{
  provider_key, env_key, get_context, call, uid, session_call, provide, create_env,
}
use fap2_srv.Handler.{catching, reply, send}
use fap2_srv.Handler.Repeat.{Returns, own_context, extern-Returns, respond-state}
use fap2_srv.Client.Wire.{IsRequest}
use fap2_srv.Proxy.{done, agent_request, create}
use fap2_srv.Agent.{Renv, add_elem_rmt, env_for, root_for}
use fap2_srv.Served.{Line, line}
use fap2_srv.Served.Requests.{answer, Made}
use fap2_srv.Served.Nodes.{agent_request_served}

-- The text of the call that AddElemRmt makes first.
abbrev pub create_spec : Text → Text
create_spec chromo = codes "CreateEnv,1," ++ chromo

-- A session at the other end that is attached to no other and whose CreateEnv of the chromo leads to
-- a state with a root object under "MEnv#0"; the object answers "Root" with one interface always,
-- whose Uid is no context yet and fits into a reply.
pub record Creates {W : Type 0} (fap : Fap W) (a m j : ℕ) (chromo u : Text) (n : Line W)
    (v : Server W) : Type 0 where
  pub up : n.up ≡ true
  pub read : n.inbox ≡ []
  pub form : IsRequest provider_key (create_spec chromo)
  pub parsed : fap.parse_ic_spec (create_spec chromo) ≡ ok (codes "CreateEnv", chromo ∷ [])
  pub provider : get_context a provider_key n.server ≡ some (session a)
  pub created : create_env fap a chromo n.server ≡ (ok tt, v)
  pub alone : (v.sessions a).attached ≡ none
  pub menv : get_context a env_key v ≡ some (extern m)
  pub rets : Returns fap m j (codes "Root") u
  pub new : has u (v.sessions a).ctx ≡ false
  pub clean : Avoids (0 ∷ []) u
  pub short : length u ≤ 510

module _ {W : Type 0} (fap : Fap W) (a m j : ℕ) (chromo u : Text) where
  creating :
      (n : Line W) (v : Server W)
      → Creates fap a m j chromo u n v
      → call fap (session a) (create_spec chromo) n.server ≡ (ok (none, env_key), v)
  unfolding call session_call lift provide
  creating n v h = rw (h.parsed, h.created)

  -- The server behind its first answer.
  abbrev made_env : Server W → Server W
  made_env v = (catching fap a (ok (none, env_key), v)).1

  root_form : IsRequest env_key (codes "Root")
  root_form = record {
    some_id = omega arith;
    one_word = (refl, (refl, (refl, (refl, (refl, (refl, tt))))));
    clean =
        (refl, (refl, (refl, (refl, (refl, (refl, (refl, (refl, (refl, (refl, (refl, tt)))))))))));
    fits = omega arith;
  }

  first_Made :
      (n : Line W) (v : Server W)
      → Creates fap a m j chromo u n v
      → Made fap a provider_key (create_spec chromo) n (ok (none, env_key)) v
  first_Made n v h = record {
    iface = session a;
    up = h.up;
    form = h.form;
    found = h.provider;
    called = creating n v h;
  }

  -- The server behind the call of the root object.
  abbrev rooted : Server W → Server W
  rooted v = record (made_env v) { world = (fap.call m (codes "Root") (made_env v).world).1 }

  second_Made :
      (n : Line W) (v : Server W)
      → Creates fap a m j chromo u n v
      → Made fap a env_key
          (codes "Root")
          (record n { server = made_env v })
          (ok (some (extern j), []))
          (rooted v)
  unfolding catching get_context
  second_Made n v h = record {
    iface = extern m;
    up = h.up;
    form = root_form;
    found = h.menv;
    called = extern-Returns fap m j (codes "Root") u (made_env v) h.rets;
  }

  answer-root :
      (n : Line W) (v : Server W)
      → Creates fap a m j chromo u n v
      → answer fap a (ok (some (extern j), [])) (rooted v) ≡ some (true, u)
  unfolding answer uid catching reply send
  answer-root n v h = rw (h.rets.uid (rooted v).world, h.new)

  -- The server behind both answers.
  abbrev both_told : Server W → Server W
  both_told v = (catching fap a (ok (some (extern j), []), rooted v)).1

  root-context :
      (n : Line W) (v : Server W)
      → Creates fap a m j chromo u n v
      → get_context a u (both_told v) ≡ some (extern j)
  unfolding catching reply send
  root-context n v h =
      let (fine, ctx, att) =
        respond-state fap a j u (made_env v) (rooted v).world (h.rets.uid (rooted v).world) h.new in
      rw (
        own_context fap a u (both_told v) (att ∙ h.alone),
        ctx,
        at-insert u u (some (extern j)) (v.sessions a).ctx h.new,
        text_eq_self u,
      )

  -- With the agent connected to a session that is attached to no other, AddElemRmt ends with a
  -- root proxy whose context leads GetContext of the session to the root object of the environment
  -- that CreateEnv made, if the request fits the buffer, CreateEnv succeeds with an object under
  -- "MEnv#0", and that object always answers "Root" with one interface, whose Uid is no context
  -- yet, holds no NUL and has at most 510 bytes.
  pub add_elem_rmt_served :
      (s : Renv (Line W)) (v : Server W)
      → Creates fap a m j chromo u s.proxies.net v
      → (t : Renv (Line W)) × (add_elem_rmt (line fap a) chromo s ≡ (done tt, t))
        × (t.root ≡ some s.proxies.count)
        × ((t.proxies.px s.proxies.count).context ≡ u)
        × (get_context a u t.proxies.net.server ≡ some (extern j))
  unfolding add_elem_rmt env_for root_for answer create
  add_elem_rmt_served s v h =
      let t1 = record s.proxies { net = record s.proxies.net { server = made_env v } } in
      let e1 : agent_request (line fap a) provider_key (create_spec chromo) s.proxies
          ≡ (done (true, env_key), t1) =
        agent_request_served fap a provider_key (create_spec chromo) s.proxies (ok (none, env_key))
          v true env_key h.read (first_Made s.proxies.net v h) refl
          (refl, (refl, (refl, (refl, (refl, (refl, tt)))))) (omega arith) in
      let t2 = record t1 { net = record t1.net { server = both_told v } } in
      let e2 : agent_request (line fap a) env_key (codes "Root") t1 ≡ (done (true, u), t2) =
        agent_request_served fap a env_key (codes "Root") t1 (ok (some (extern j), [])) (rooted v)
          true u h.read (second_Made s.proxies.net v h) (answer-root s.proxies.net v h) h.clean
          h.short in
      (
        record s { proxies = (create none u t2).1; root = some t2.count },
        rw (e1, e2),
        refl,
        ground arith,
        root-context s.proxies.net v h,
      )
