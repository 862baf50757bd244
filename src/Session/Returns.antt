-- ===== src/Session/Returns.antt =====
-- No call hands out a pointer to a session.
use fap2_srv.Prelude.{ℕ, Text, Option, none, some, Option-cases, inl, inr, List, [], ◌∷◌}
use fap2_srv.Fap.{Fap}
use fap2_srv.Server.{Iface, session, extern, Exec, lift}
use fap2_srv.Server.Keeps.{Yields, Yields-pure, Yields-throw, Yields-bind, Yields-if}
use fap2_srv.Session.{
  env_key, one_arg, no_arg, provide, session_call, call, get_env, call_get_env, call_get_id,
  extern_ptr,
}

-- The pointer that was returned is null or an object of the library.
abbrev pub Foreign : Option Iface × Text → Type 0
Foreign (none, res) = Unit {0}
Foreign (some (session b), res) = ⊥
Foreign (some (extern r), res) = Unit {0}

extern_ptr-Foreign : (r : Option ℕ) (res : Text) → Foreign (extern_ptr r, res)
extern_ptr-Foreign none res = tt
extern_ptr-Foreign (some r) res = tt

module _ {W : Type 0} where
  one_arg-Foreign :
      (args : List Text) (f : Text → Exec W (Option Iface × Text))
      → ((arg : Text) → Yields Foreign (f arg))
      → Yields Foreign (one_arg args f)
  one_arg-Foreign [] f kf = Yields-throw Foreign _
  one_arg-Foreign (arg ∷ []) f kf = kf arg
  one_arg-Foreign (arg ∷ more ∷ rest) f kf = Yields-throw Foreign _

  no_arg-Foreign :
      (args : List Text) (m : Exec W (Option Iface × Text))
      → Yields Foreign m
      → Yields Foreign (no_arg args m)
  no_arg-Foreign [] m km = km
  no_arg-Foreign (arg ∷ rest) m km = Yields-throw Foreign _

  call_get_env-Foreign : (a : ℕ) → Yields {W = W} Foreign (call_get_env a)
  unfolding call_get_env
  call_get_env-Foreign a = record {
    at = λ s r e. elim (Option-cases (get_env a s)) [
      | inl none_there ↦
          (Yields-pure {W = W} Foreign (none, []) tt).at s r (rw (none_there, call_get_env) at e)
      | inr (env, there) ↦
          (Yields-pure {W = W} Foreign (none, env_key) tt).at s r (rw (there, call_get_env) at e)
    ];
  }

  call_get_id-Foreign : (a : ℕ) → Yields {W = W} Foreign (call_get_id a)
  unfolding call_get_id
  call_get_id-Foreign a = record { at = λ s r e. (Yields-pure {W = W} Foreign _ tt).at s r e }

ruleset foreign_rules = (
  Yields-pure, Yields-throw, Yields-bind, Yields-if, one_arg-Foreign, no_arg-Foreign,
  call_get_env-Foreign, call_get_id-Foreign,
)

module _ {W : Type 0} (fap : Fap W) where
  provide-Foreign :
      (a : ℕ) (name : Text) (args : List Text) → Yields Foreign (provide fap a name args)
  unfolding provide
  provide-Foreign a name args = search foreign_rules depth 20

  pub call-Foreign : (i : Iface) (spec : Text) → Yields Foreign (call fap i spec)
  unfolding call session_call
  call-Foreign (session a) spec =
      Yields-bind Foreign (lift (λ w. (fap.parse_ic_spec spec, w))) _
        λ (name, args). provide-Foreign a name args
  call-Foreign (extern r) spec =
      Yields-bind Foreign (lift (fap.call r spec)) _
        λ (ptr, res). Yields-pure Foreign (extern_ptr ptr, res) (extern_ptr-Foreign ptr res)
