-- ===== src/Session/Rules.antt =====
-- How a relation between states passes from the steps of a session's methods to the methods.
use fap2_srv.Prelude.{
  ℕ, Text, ℤ, Option, none, some, Option-cases, inl, inr, List, [], ◌∷◌, has, insert, text_key,
}
use fap2_srv.Fap.{Fap, Outcome}
use fap2_srv.Server.{Iface, extern, Server, Exec, lift, modify}
use fap2_srv.Server.Keeps.{IsPreorder, Keeps, Keeps-pure, Keeps-throw, Keeps-bind, Keeps-if, if_at}
use fap2_srv.Session.{
  add_context, attach_env, non_null, one_arg, no_arg, finish_env, build_env, create_env, provide,
  session_call, call, find_by_id, get_env, get_id, call_get_env, call_get_id, extern_ptr, env_key,
}

module _ {W : Type 0} {R : Server W → Server W → Type 0} (pre : IsPreorder R) where
  pub add_context-Keeps :
      (a : ℕ) (handle : Text) (ptr : Option Iface)
      → Keeps R (modify a (λ c. record c { ctx = insert handle ptr c.ctx }))
      → Keeps R (add_context a handle ptr)
  unfolding add_context
  add_context-Keeps a handle ptr put = record {
    at = λ s. if_at (λ r. R s r.1) (has handle (s.sessions a).ctx) _ _ (pre.idle s) (put.at s);
  }

  pub attach_env-Keeps :
      (a : ℕ) (id : ℤ)
      → ((b : ℕ) → Keeps R (modify a (λ c. record c { attached = some b })))
      → Keeps R (attach_env a id)
  unfolding attach_env
  attach_env-Keeps a id put = record {
    at = λ s. elim (Option-cases (find_by_id s.sessions id s.clients)) [
      | inl e ↦ rw (e, attach_env) (pre.idle s)
      | inr (b, e) ↦ rw (e, attach_env) ((put b).at s)
    ];
  }

  pub non_null-Keeps : (env : Option ℕ) → Keeps R (non_null env)
  non_null-Keeps none = Keeps-throw pre _
  non_null-Keeps (some env) = Keeps-pure pre env

  pub call_get_env-Keeps : (a : ℕ) → Keeps R (call_get_env a)
  unfolding call_get_env
  call_get_env-Keeps a = record {
    at = λ s. elim (Option-cases (get_env a s)) [
      | inl e ↦ rw (e, call_get_env) (pre.idle s)
      | inr (env, e) ↦ rw (e, call_get_env) (pre.idle s)
    ];
  }

  pub call_get_id-Keeps : (a : ℕ) → Keeps R (call_get_id a)
  unfolding call_get_id
  call_get_id-Keeps a = record { at = pre.idle }

  pub one_arg-Keeps :
      {A : Type 0} (args : List Text) (f : Text → Exec W A)
      → ((arg : Text) → Keeps R (f arg))
      → Keeps R (one_arg args f)
  one_arg-Keeps [] f kf = Keeps-throw pre _
  one_arg-Keeps (arg ∷ []) f kf = kf arg
  one_arg-Keeps (arg ∷ more ∷ rest) f kf = Keeps-throw pre _

  pub no_arg-Keeps :
      {A : Type 0} (args : List Text) (m : Exec W A) → Keeps R m → Keeps R (no_arg args m)
  no_arg-Keeps [] m km = km
  no_arg-Keeps (arg ∷ rest) m km = Keeps-throw pre _

ruleset rules = (
  Keeps-pure, Keeps-throw, Keeps-bind, Keeps-if, non_null-Keeps, call_get_env-Keeps,
  call_get_id-Keeps, one_arg-Keeps, no_arg-Keeps,
)

module _ {W : Type 0} {R : Server W → Server W → Type 0} (pre : IsPreorder R)
    (lifts : (A : Type 0) (m : W → Outcome A × W) → Keeps R (lift m)) (fap : Fap W) where
  pub finish_env-Keeps :
      (a : ℕ) (sid : Text) (ptr : Option ℕ)
      → ((menv : Option ℕ) → Keeps R (add_context a env_key (extern_ptr menv)))
      → Keeps R (finish_env fap a sid ptr)
  unfolding finish_env
  finish_env-Keeps a sid ptr put = search (rules, pre, lifts, put) depth 20

  -- CreateEnv, from its two changes of the session.
  pub build_env-Keeps :
      (a : ℕ) (chromo sid : Text)
      → ((env : Option ℕ) → Keeps R (modify a (λ c. record c { env = env })))
      → ((ptr : Option ℕ) → Keeps R (add_context a env_key (extern_ptr ptr)))
      → Keeps R (build_env fap a chromo sid)
  unfolding build_env
  build_env-Keeps a chromo sid set put =
      search (rules, pre, lifts, set, finish_env-Keeps, put) depth 20

  pub create_env-Keeps :
      (a : ℕ) (chromo : Text)
      → ((sid : Text) → Keeps R (build_env fap a chromo sid))
      → Keeps R (create_env fap a chromo)
  unfolding create_env
  create_env-Keeps a chromo build = record {
    at = λ s. elim (Option-cases (get_env a s)) [
      | inl e ↦ rw (e, create_env) ((build (get_id a s)).at s)
      | inr (env, e) ↦ rw (e, create_env) (pre.idle s)
    ];
  }

  provide-Keeps :
      (a : ℕ) (name : Text) (args : List Text)
      → ((chromo : Text) → Keeps R (create_env fap a chromo))
      → ((id : ℤ) → Keeps R (attach_env a id))
      → Keeps R (provide fap a name args)
  unfolding provide
  provide-Keeps a name args create attach = search (rules, pre, create, attach) depth 20

  pub session_call-Keeps :
      (a : ℕ) (spec : Text)
      → ((chromo : Text) → Keeps R (create_env fap a chromo))
      → ((id : ℤ) → Keeps R (attach_env a id))
      → Keeps R (session_call fap a spec)
  unfolding session_call
  session_call-Keeps a spec create attach =
      Keeps-bind pre (lift (λ w. (fap.parse_ic_spec spec, w))) _ (lifts _ _)
        λ (name, args). provide-Keeps a name args create attach

  pub extern_call-Keeps : (r : ℕ) (spec : Text) → Keeps R (call fap (extern r) spec)
  unfolding call
  extern_call-Keeps r spec =
      Keeps-bind pre (lift (fap.call r spec)) _ (lifts _ _) λ (ptr, res). Keeps-pure pre _
