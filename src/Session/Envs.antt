-- ===== src/Session/Envs.antt =====
-- How CreateEnv ends.
use fap2_srv.Prelude.{
  ℕ, Text, codes, has, insert, text_key, Option, none, some, Option-cases, Bool-cases, inl, inr,
  ◌++◌, true, false, ◌≡◌, refl, arith,
}
use fap2_srv.Fap.{Fap, Outcome, ok, threw}
use fap2_srv.Server.{Server}
use fap2_srv.Server.Keeps.{lift_ends}
use fap2_srv.Session.{
  env_key, finish_env, add_context, build_env, create_env, get_env, get_id, extern_ptr,
}

abbrev pub log_name : Text → Text
log_name sid = codes "Env~" ++ sid ++ codes ".log"

-- What the library gave for an environment that it built: the calls in their order, each in the
-- state that the one before it left, up to the root of the environment.
pub record Assembled {W : Type 0} (fap : Fap W) (chromo sid : Text) (w : W) (env : ℕ)
    (menv : Option ℕ) (z : W) : Type 0 where
  pub w1 : W
  pub w2 : W
  pub w3 : W
  pub w4 : W
  pub made : fap.new_env chromo (log_name sid) w ≡ (ok (some env), w1)
  pub evar : fap.set_evar env (codes "EnvId") sid w1 ≡ (ok tt, w2)
  pub prov : fap.add_daa_prov (codes "DaaProv") env w2 ≡ (ok tt, w3)
  pub system : fap.construct_system env w3 ≡ (ok tt, w4)
  pub root : fap.get_obj env w4 ≡ (ok menv, z)

-- Why it does not get that far: one of the calls threw, or there is no environment.
pub data Broken {W : Type 0} (fap : Fap W) (chromo sid : Text) (w : W) : Text → Type 0 where
  new_threw :
      (what : Text) (z : W)
      → fap.new_env chromo (log_name sid) w ≡ (threw what, z)
      → Broken fap chromo sid w what
  null_env :
      (z : W)
      → fap.new_env chromo (log_name sid) w ≡ (ok none, z)
      → Broken fap chromo sid w (codes "Failed creating env")
  evar_threw :
      (env : ℕ) (w1 z : W) (what : Text)
      → fap.new_env chromo (log_name sid) w ≡ (ok (some env), w1)
      → fap.set_evar env (codes "EnvId") sid w1 ≡ (threw what, z)
      → Broken fap chromo sid w what
  prov_threw :
      (env : ℕ) (w1 w2 z : W) (what : Text)
      → fap.new_env chromo (log_name sid) w ≡ (ok (some env), w1)
      → fap.set_evar env (codes "EnvId") sid w1 ≡ (ok tt, w2)
      → fap.add_daa_prov (codes "DaaProv") env w2 ≡ (threw what, z)
      → Broken fap chromo sid w what
  system_threw :
      (env : ℕ) (w1 w2 w3 z : W) (what : Text)
      → fap.new_env chromo (log_name sid) w ≡ (ok (some env), w1)
      → fap.set_evar env (codes "EnvId") sid w1 ≡ (ok tt, w2)
      → fap.add_daa_prov (codes "DaaProv") env w2 ≡ (ok tt, w3)
      → fap.construct_system env w3 ≡ (threw what, z)
      → Broken fap chromo sid w what
  root_threw :
      (env : ℕ) (w1 w2 w3 w4 z : W) (what : Text)
      → fap.new_env chromo (log_name sid) w ≡ (ok (some env), w1)
      → fap.set_evar env (codes "EnvId") sid w1 ≡ (ok tt, w2)
      → fap.add_daa_prov (codes "DaaProv") env w2 ≡ (ok tt, w3)
      → fap.construct_system env w3 ≡ (ok tt, w4)
      → fap.get_obj env w4 ≡ (threw what, z)
      → Broken fap chromo sid w what

-- How CreateEnv ends, from the state before it.
pub data EnvFate {W : Type 0} (fap : Fap W) (a : ℕ) (chromo : Text) (s : Server W)
    (r : Outcome (Unit {0}) × Server W) : Type 0 where
  -- an environment was there: nothing changes
  refused :
      (env : ℕ)
      → (s.sessions a).env ≡ some env
      → r ≡ (threw (codes "Env already created"), s)
      → EnvFate fap a chromo s r
  -- the environment that the library built is there, and the root that it gave for it stands in the
  -- context map, which had none
  made :
      (env : ℕ) (menv : Option ℕ)
      → (s.sessions a).env ≡ none
      → Assembled fap chromo (get_id a s) s.world env menv r.1.world
      → r.0 ≡ ok tt
      → (r.1.sessions a).env ≡ some env
      → has env_key (s.sessions a).ctx ≡ false
      → (r.1.sessions a).ctx ≡ insert env_key (extern_ptr menv) (s.sessions a).ctx
      → EnvFate fap a chromo s r
  -- a step threw: no context was added
  failed :
      (what : Text)
      → (s.sessions a).env ≡ none
      → Broken fap chromo (get_id a s) s.world what
      → r.0 ≡ threw what
      → (r.1.sessions a).ctx ≡ (s.sessions a).ctx
      → EnvFate fap a chromo s r
  -- the root has no place in the context map
  taken :
      (env : ℕ) (menv : Option ℕ)
      → (s.sessions a).env ≡ none
      → Assembled fap chromo (get_id a s) s.world env menv r.1.world
      → r.0 ≡ threw (codes "Context already exists")
      → has env_key (s.sessions a).ctx ≡ true
      → (r.1.sessions a).ctx ≡ (s.sessions a).ctx
      → EnvFate fap a chromo s r

module _ {W : Type 0} (fap : Fap W) (a : ℕ) (chromo : Text) (s : Server W)
    (fresh : (s.sessions a).env ≡ none) where
  bound :
      (env : ℕ) (menv : Option ℕ) (t : Server W)
      → Assembled fap chromo (get_id a s) s.world env menv t.world
      → (t.sessions a).env ≡ some env
      → (t.sessions a).ctx ≡ (s.sessions a).ctx
      → EnvFate fap a chromo s (add_context a env_key (extern_ptr menv) t)
  unfolding add_context
  bound env menv t built there same = elim (Bool-cases (has env_key (t.sessions a).ctx)) [
    | inl old ↦ rw old (taken env menv fresh built refl (rw same at old) same)
    | inr new ↦
        rw new
          (made env menv fresh built refl (ground arith) (rw same at new) (ground (arith, same)))
  ]

  finished :
      (ptr : Option ℕ) (t : Server W)
      → fap.new_env chromo (log_name (get_id a s)) s.world ≡ (ok ptr, t.world)
      → (t.sessions a).env ≡ ptr
      → (t.sessions a).ctx ≡ (s.sessions a).ctx
      → EnvFate fap a chromo s (finish_env fap a (get_id a s) ptr t)
  unfolding finish_env
  finished none t e there same = failed _ fresh (null_env _ e) refl same
  finished (some env) t e there same =
      lift_ends (EnvFate fap a chromo s) (fap.set_evar env (codes "EnvId") (get_id a s)) _ t
        (λ what w e1. failed what fresh (evar_threw env _ w what e e1) refl same)
        λ _ w2 e1.
          lift_ends (EnvFate fap a chromo s) (fap.add_daa_prov (codes "DaaProv") env) _ _
            (λ what w e2. failed what fresh (prov_threw env _ w2 w what e e1 e2) refl same)
            λ _ w3 e2.
              lift_ends (EnvFate fap a chromo s) (fap.construct_system env) _ _
                (λ what w e3.
                  failed what fresh (system_threw env _ w2 w3 w what e e1 e2 e3) refl same)
                λ _ w4 e3.
                  lift_ends (EnvFate fap a chromo s) (fap.get_obj env) _ _
                    (λ what w e4.
                      failed what fresh (root_threw env _ w2 w3 w4 w what e e1 e2 e3 e4) refl same)
                    λ menv w e4.
                      bound env menv (record t { world = w })
                        (record {
                          w1 = t.world;
                          w2 = w2;
                          w3 = w3;
                          w4 = w4;
                          made = e;
                          evar = e1;
                          prov = e2;
                          system = e3;
                          root = e4;
                        })
                        there same

  build_env-Fate : EnvFate fap a chromo s (build_env fap a chromo (get_id a s) s)
  unfolding build_env
  build_env-Fate =
      lift_ends (EnvFate fap a chromo s) (fap.new_env chromo (log_name (get_id a s))) _ s
        (λ what w e. failed what fresh (new_threw what w e) refl refl)
        λ ptr w e. finished ptr _ e (ground arith) (ground arith)

module _ {W : Type 0} (fap : Fap W) where
  -- CreateEnv is refused and changes nothing where the session has an environment. Otherwise,
  -- either new Env, SetEVar of the id of the session, AddDaaProv, ConstructSystem and GetObj on
  -- that environment return one after the other, and the session has the environment and, under
  -- "MEnv#0", which was no key, the root that GetObj gave; or "MEnv#0" was a key, and CreateEnv
  -- throws "Context already exists"; or one of these calls throws, and CreateEnv throws the same,
  -- or new Env gives NULL, and it throws "Failed creating env", and no context is added.
  pub create_env-Fate :
      (a : ℕ) (chromo : Text) (s : Server W) → EnvFate fap a chromo s (create_env fap a chromo s)
  unfolding create_env get_env
  create_env-Fate a chromo s = elim (Option-cases (get_env a s)) [
    | inl e ↦ rw (e, create_env) (build_env-Fate fap a chromo s e)
    | inr (env, e) ↦ rw (e, create_env) (refused env e refl)
  ]
