-- ===== src/Session/Related.antt =====
-- The methods of a session on related states.
use fap2_srv.Prelude.{
  ℕ, Text, codes, ◌++◌, has, insert, text_key, ℤ, print_signed, Option, none, some, Option-cases,
  Bool-cases, false, inl, inr, List, [], ◌∷◌, ◌≡◌, refl, sym, subst, ◌∙◌, fun_ext,
}
use fap2_srv.Fap.{Fap, Outcome}
use fap2_srv.Server.{Iface, session, extern, Server, Exec, throw, pure, lift, modify}
use fap2_srv.Server.Related.{
  Agree, Respects, Respects-pure, Respects-throw, Respects-bind, Respects-read, Respects-if,
}
use fap2_srv.Session.{
  add_context, attach_env, non_null, one_arg, no_arg, finish_env, build_env, create_env, provide,
  session_call, call, find_by_id, get_env, get_id, call_get_env, call_get_id, env_key,
}

abbrev bind_context : {W : Type 0} → ℕ → Text → Option Iface → Exec W (Unit {0})
bind_context b k p = modify b (λ c. record c { ctx = insert k p c.ctx })

-- What the methods of a session read is the same in related states, and what they write keeps them
-- related.
pub record Matched {W : Type 0} (R : Server W → Server W → Type 0) (b : ℕ) : Type 0 where
  pub bound_same :
      {s t : Server W} → R s t → (k : Text) → has k (s.sessions b).ctx ≡ has k (t.sessions b).ctx
  pub env_same : {s t : Server W} → R s t → get_env b s ≡ get_env b t
  pub id_same : {s t : Server W} → R s t → get_id b s ≡ get_id b t
  pub found_same :
      {s t : Server W}
      → R s t
      → (id : ℤ) → find_by_id s.sessions id s.clients ≡ find_by_id t.sessions id t.clients
  pub binds :
      {s t : Server W}
      → R s t
      → (k : Text) (p : Option Iface) → has k (s.sessions b).ctx ≡ false
      → Agree R (bind_context b k p s) (bind_context b k p t)
  pub attaches : (c : ℕ) → Respects R (modify b (λ d. record d { attached = some c }))
  pub gets_env : (env : Option ℕ) → Respects R (modify b (λ d. record d { env = env }))

module _ {W : Type 0} {R : Server W → Server W → Type 0} where
  non_null-Respects : (env : Option ℕ) → Respects R (non_null env)
  non_null-Respects none = Respects-throw _
  non_null-Respects (some env) = Respects-pure env

  one_arg-Respects :
      {A : Type 0} (args : List Text) (f : Text → Exec W A)
      → ((arg : Text) → Respects R (f arg))
      → Respects R (one_arg args f)
  one_arg-Respects [] f kf = Respects-throw _
  one_arg-Respects (arg ∷ []) f kf = kf arg
  one_arg-Respects (arg ∷ more ∷ rest) f kf = Respects-throw _

  no_arg-Respects :
      {A : Type 0} (args : List Text) (m : Exec W A) → Respects R m → Respects R (no_arg args m)
  no_arg-Respects [] m km = km
  no_arg-Respects (arg ∷ rest) m km = Respects-throw _

ruleset respects = (
  Respects-pure, Respects-throw, Respects-bind, Respects-if, non_null-Respects, one_arg-Respects,
  no_arg-Respects,
)

module _ {W : Type 0} {R : Server W → Server W → Type 0} (b : ℕ) (h : Matched R b) where
  pub add_context-Respects : (k : Text) (p : Option Iface) → Respects {W = W} R (add_context b k p)
  unfolding add_context
  add_context-Respects k p = record {
    at = λ {s} {t} r. elim (Bool-cases (has k (s.sessions b).ctx)) [
      | inl old ↦ rw (old, sym (h.bound_same r k) ∙ old) (record { outcome = refl; states = r })
      | inr new ↦ rw (new, sym (h.bound_same r k) ∙ new) (h.binds r k p new)
    ];
  }

  attached_to : ℤ → Option ℕ → Exec W (Unit {0})
  attached_to id none =
      throw (codes "Session [" ++ print_signed id ++ codes "] for attaching not found")
  attached_to id (some c) = modify b (λ d. record d { attached = some c })

  attached_to-Respects : (id : ℤ) (found : Option ℕ) → Respects R (attached_to id found)
  unfolding attached_to
  attached_to-Respects id none = Respects-throw _
  attached_to-Respects id (some c) = h.attaches c

  attached_to_lem :
      (id : ℤ) (s : Server W)
      → attach_env b id s ≡ attached_to id (find_by_id s.sessions id s.clients) s
  unfolding attach_env attached_to
  attached_to_lem id s = elim (Option-cases (find_by_id s.sessions id s.clients)) [
    | inl e ↦ rw (e, attach_env) refl
    | inr (c, e) ↦ rw (e, attach_env) refl
  ]

  attach_env-Respects : (id : ℤ) → Respects {W = W} R (attach_env b id)
  attach_env-Respects id = subst (Respects R) (sym (fun_ext (attached_to_lem id))) (
      Respects-read (λ s. find_by_id s.sessions id s.clients) (attached_to id)
        (λ s t r. h.found_same r id) (attached_to-Respects id))

  env_told : Option ℕ → Exec W (Option Iface × Text)
  env_told none = pure (none, [])
  env_told (some env) = pure (none, env_key)

  env_told_lem : (s : Server W) → call_get_env b s ≡ env_told (get_env b s) s
  unfolding call_get_env env_told
  env_told_lem s = elim (Option-cases (get_env b s)) [
    | inl e ↦ rw (e, call_get_env) refl
    | inr (env, e) ↦ rw (e, call_get_env) refl
  ]

  env_told-Respects : (env : Option ℕ) → Respects R (env_told env)
  unfolding env_told
  env_told-Respects none = Respects-pure _
  env_told-Respects (some env) = Respects-pure _

  call_get_env-Respects : Respects {W = W} R (call_get_env b)
  call_get_env-Respects =
      subst (Respects R) (sym (fun_ext env_told_lem))
        (Respects-read (get_env b) env_told (λ s t r. h.env_same r) env_told-Respects)

  call_get_id-Respects : Respects {W = W} R (call_get_id b)
  unfolding call_get_id
  call_get_id-Respects =
      Respects-read (get_id b) (λ id. pure (none, id)) (λ s t r. h.id_same r) λ id. Respects-pure _

module _ {W : Type 0} {R : Server W → Server W → Type 0}
    (lifts : (A : Type 0) (m : W → Outcome A × W) → Respects R (lift m)) (fap : Fap W) where
  module _ (b : ℕ) (h : Matched R b) where
    finish_env-Respects : (sid : Text) (ptr : Option ℕ) → Respects R (finish_env fap b sid ptr)
    unfolding finish_env
    finish_env-Respects sid ptr = search (respects, lifts, add_context-Respects b h) depth 20

    build_env-Respects : (chromo sid : Text) → Respects R (build_env fap b chromo sid)
    unfolding build_env
    build_env-Respects chromo sid =
        search (respects, lifts, h.gets_env, finish_env-Respects) depth 20

    created : Text → Text → Option ℕ → Exec W (Unit {0})
    created chromo sid none = build_env fap b chromo sid
    created chromo sid (some env) = throw (codes "Env already created")

    created-Respects : (chromo sid : Text) (old : Option ℕ) → Respects R (created chromo sid old)
    unfolding created
    created-Respects chromo sid none = build_env-Respects chromo sid
    created-Respects chromo sid (some env) = Respects-throw _

    created_lem :
        (chromo : Text) (s : Server W)
        → create_env fap b chromo s ≡ created chromo (get_id b s) (get_env b s) s
    unfolding create_env created
    created_lem chromo s = elim (Option-cases (get_env b s)) [
      | inl e ↦ rw (e, create_env) refl
      | inr (env, e) ↦ rw (e, create_env) refl
    ]

    create_env-Respects : (chromo : Text) → Respects R (create_env fap b chromo)
    create_env-Respects chromo = subst (Respects R) (sym (fun_ext (created_lem chromo))) (
        Respects-read (get_env b) (λ old s. created chromo (get_id b s) old s)
          (λ s t r. h.env_same r)
          λ old.
            Respects-read (get_id b) (λ sid. created chromo sid old) (λ s t r. h.id_same r)
              λ sid. created-Respects chromo sid old)

    provide-Respects : (name : Text) (args : List Text) → Respects R (provide fap b name args)
    unfolding provide
    provide-Respects name args = Respects-if _ _ _ (call_get_env-Respects b h) (
        Respects-if _ _ _
          (one_arg-Respects args _ λ chromo.
            Respects-bind (create_env fap b chromo) _ (create_env-Respects chromo)
              λ _. Respects-pure _)
          (Respects-if _ _ _ (no_arg-Respects args _ (call_get_id-Respects b h)) (
            Respects-if _ _ _
              (one_arg-Respects args _ λ arg.
                Respects-bind (attach_env b _) _ (attach_env-Respects b h _) λ _. Respects-pure _)
              (Respects-throw _))))

    session_call-Respects : (spec : Text) → Respects R (session_call fap b spec)
    unfolding session_call
    session_call-Respects spec =
        Respects-bind (lift (λ w. (fap.parse_ic_spec spec, w))) _ (lifts _ _)
          λ (name, args). provide-Respects name args

  -- The interfaces whose calls do the same on related states.
  abbrev pub Callable : Iface → Type 0
  Callable (session b) = Matched R b
  Callable (extern r) = Unit {0}

  pub call-Respects : (i : Iface) (spec : Text) → Callable i → Respects R (call fap i spec)
  unfolding call
  call-Respects (session b) spec h = session_call-Respects b h spec
  call-Respects (extern r) spec h =
      Respects-bind (lift (fap.call r spec)) _ (lifts _ _) λ (ptr, res). Respects-pure _
