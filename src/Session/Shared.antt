-- ===== src/Session/Shared.antt =====
-- The environment of a session, as the sessions that are attached to it see it.
use fap2_srv.Prelude.{ℕ, Text, at, at-insert, text_key, Option, some, ◌≡◌, ◌≢◌, sym, ap, subst, ◌∙◌}
use fap2_srv.Fap.{Fap, Outcome, ok}
use fap2_srv.Server.{Iface, Session, Server}
use fap2_srv.Session.{env_key, create_env, get_context, get_env, context_owner, extern_ptr}
use fap2_srv.Session.Envs.{EnvFate, refused, made, failed, taken, create_env-Fate}
use fap2_srv.Session.Frame.{create_env-Frame}

module _ {W : Type 0} where
  pub attached_context :
      (a b : ℕ) (k : Text) (ptr : Option Iface) (t : Server W)
      → (t.sessions a).attached ≡ some b
      → at k (t.sessions b).ctx ≡ some ptr
      → get_context a k t ≡ ptr
  unfolding get_context
  attached_context a b k ptr t f e = rw (f, context_owner) (rw e)

module _ {W : Type 0} (fap : Fap W) where
  -- The environment that a session got, and the context in its map.
  made_env :
      (b : ℕ) (chromo : Text) (s t : Server W) (r : Outcome (Unit {0}) × Server W)
      → EnvFate fap b chromo s r
      → r ≡ (ok tt, t)
      → (env : ℕ) × (menv : Option ℕ) × ((t.sessions b).env ≡ some env)
        × (at env_key (t.sessions b).ctx ≡ some (extern_ptr menv))
  made_env b chromo s t r (refused env e f) h = absurd (cc)
  made_env b chromo s t r (failed what e br f g) h = absurd (cc)
  made_env b chromo s t r (taken env menv e built f old g) h = absurd (cc)
  made_env b chromo s t r (made env menv fresh built fine there new ctx) h =
      let same : r.1 ≡ t = ap (λ (x : Outcome (Unit {0}) × Server W). x.1) h in
      let bound : at env_key (r.1.sessions b).ctx ≡ some (extern_ptr menv) =
        ap (at env_key) ctx ∙ at-insert env_key env_key (extern_ptr menv) (s.sessions b).ctx new in
      (
        env,
        menv,
        subst (λ (u : Server W). (u.sessions b).env ≡ some env) same there,
        subst (λ (u : Server W). at env_key (u.sessions b).ctx ≡ some (extern_ptr menv)) same bound,
      )

  -- When CreateEnv of a session succeeds, every other session that is attached to it finds the root
  -- of the new environment under "MEnv#0".
  pub create_env-get_context :
      (a b : ℕ) (chromo : Text) (s t : Server W)
      → a ≢ b
      → (s.sessions a).attached ≡ some b
      → create_env fap b chromo s ≡ (ok tt, t)
      → (env : ℕ) × (menv : Option ℕ) × (get_env b t ≡ some env)
        × (get_context a env_key t ≡ extern_ptr menv)
  unfolding get_env
  create_env-get_context a b chromo s t ne att h =
      let (env, menv, there, ctx) =
        made_env b chromo s t (create_env fap b chromo s) (create_env-Fate fap b chromo s) h in
      let e : t.sessions a ≡ s.sessions a =
        ap (λ (r : Outcome (Unit {0}) × Server W). r.1.sessions a) (sym h)
        ∙ ((create_env-Frame fap b b chromo).at s).other a ne ne in
      let f : (t.sessions a).attached ≡ some b = ap (λ (c : Session). c.attached) e ∙ att in
      (env, menv, there, attached_context a b env_key (extern_ptr menv) t f ctx)
