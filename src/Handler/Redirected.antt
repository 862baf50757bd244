-- ===== src/Handler/Redirected.antt =====
-- The messages of a session that is attached to another one.
use fap2_srv.Prelude.{
  ℕ, zero, suc, ◌+◌, Text, find_first_of, drop, text_key, Option, none, some, ◌≡◌, ◌≢◌, refl, sym,
  ◌∙◌, subst, arith,
}
use fap2_srv.Requests.{
  req_separator, res_error, res_error_ctx_missing, res_error_ctx_notfound, res_error_nocspec,
}
use fap2_srv.Fap.{Fap, Outcome}
use fap2_srv.Server.{Iface, session, extern, Session, Server, lift, modify}
use fap2_srv.Server.Keeps.{IsPreorder, Keeps}
use fap2_srv.Session.Rules.{
  add_context-Keeps, attach_env-Keeps, build_env-Keeps, create_env-Keeps, session_call-Keeps,
  extern_call-Keeps,
}
use fap2_srv.Session.{add_context, call, get_context, context_owner, env_key, extern_ptr}
use fap2_srv.Session.Owned.{Owned}
use fap2_srv.Handler.Rules
use fap2_srv.Handler.Answers.{target}
use fap2_srv.Handler.Isolation.{get_context-target}
use fap2_srv.Handler.{context_id, reply, dispatch, with_end, handle_message}

-- The session is attached as before, and has the same environment.
pub record Settled {W : Type 0} (a : ℕ) (s t : Server W) : Type 0 where
  pub attached : (t.sessions a).attached ≡ (s.sessions a).attached
  pub env : (t.sessions a).env ≡ (s.sessions a).env

module _ {W : Type 0} (a : ℕ) where
  Settled-IsPreorder : IsPreorder {W = W} (Settled a)
  Settled-IsPreorder = record {
    idle = λ s. record { attached = refl; env = refl };
    join = λ f g. record { attached = g.attached ∙ f.attached; env = g.env ∙ f.env };
  }

  lift-Settled : (A : Type 0) (m : W → Outcome A × W) → Keeps {W = W} (Settled a) (lift m)
  unfolding lift
  lift-Settled A m = record { at = λ s. record { attached = refl; env = refl } }

  other-Settled : (b : ℕ) (f : Session → Session) → b ≢ a → Keeps {W = W} (Settled a) (modify b f)
  unfolding modify
  other-Settled b f apart = record {
    at = λ s. record { attached = ground (arith, apart); env = ground (arith, apart) };
  }

  add_context-Settled :
      (b : ℕ) (handle : Text) (ptr : Option Iface)
      → Keeps {W = W} (Settled a) (add_context b handle ptr)
  unfolding modify
  add_context-Settled b handle ptr =
      add_context-Keeps Settled-IsPreorder b handle ptr
        (record { at = λ s. record { attached = ground arith; env = ground arith } })

  reply-Settled : (b : ℕ) (msg args : Text) → Keeps {W = W} (Settled a) (reply b msg args)
  unfolding reply
  reply-Settled b msg args = record { at = λ s. record { attached = refl; env = refl } }

module _ {W : Type 0} (fap : Fap W) (a : ℕ) where
  call-Settled :
      (ctx : Iface) (spec : Text) (o : ℕ)
      → o ≢ a
      → target ctx o ≡ o
      → Keeps (Settled a) (call fap ctx spec)
  unfolding call
  call-Settled (session b) spec o apart same =
      let away : b ≢ a = subst (λ c. c ≢ a) (sym same) apart in
      session_call-Keeps (Settled-IsPreorder a) (lift-Settled a) fap b spec
        (λ chromo. create_env-Keeps (Settled-IsPreorder a) (lift-Settled a) fap b chromo λ sid.
          build_env-Keeps (Settled-IsPreorder a) (lift-Settled a) fap b chromo sid
            (λ env. other-Settled a b (λ c. record c { env = env }) away)
            (λ ptr. add_context-Settled a b env_key (extern_ptr ptr)))
        (λ id.
          attach_env-Keeps (Settled-IsPreorder a) b id
            (λ c. other-Settled a b (λ d. record d { attached = some c }) away))
  call-Settled (extern r) spec o apart same =
      extern_call-Keeps (Settled-IsPreorder a) (lift-Settled a) fap r spec

  dispatch-Settled :
      (msg key : Text) (end : Option ℕ) (ptr : Option Iface) (s : Server W)
      → Owned s
      → context_owner s.sessions a ≢ a
      → get_context a key s ≡ ptr
      → Settled a s (dispatch fap a msg end ptr s).1
  unfolding dispatch
  dispatch-Settled msg key end none s h apart e =
      (reply-Settled a a res_error res_error_ctx_notfound).at s
  dispatch-Settled msg key none (some ctx) s h apart e =
      (reply-Settled a a res_error res_error_nocspec).at s
  dispatch-Settled msg key (some end) (some ctx) s h apart e =
      Rules.catching-Keeps (Settled-IsPreorder a) fap (reply-Settled a) (add_context-Settled a) a s
        _
        ((call-Settled ctx (drop (end + 1) msg) (context_owner s.sessions a) apart
            (get_context-target a key s ctx h e)).at
          s)

  with_end-Settled :
      (msg : Text) (end : Option ℕ) (s : Server W)
      → Owned s
      → context_owner s.sessions a ≢ a
      → Settled a s (with_end fap a msg end s).1
  unfolding with_end
  with_end-Settled msg (some zero) s h apart =
      (reply-Settled a a res_error res_error_ctx_missing).at s
  with_end-Settled msg (some (suc n)) s h apart =
      dispatch-Settled msg (context_id msg (some (suc n))) (some (suc n)) _ s h apart refl
  with_end-Settled msg none s h apart =
      dispatch-Settled msg (context_id msg none) none _ s h apart refl

  owner_attached :
      (b : ℕ) (s : Server W) → (s.sessions a).attached ≡ some b → context_owner s.sessions a ≡ b
  unfolding context_owner
  owner_attached b s e = rw (e, context_owner)

  -- If no context map points to another session, no message of a session that is attached to
  -- another one changes whom it is attached to, or its own environment.
  pub attached_stays :
      (b : ℕ) (msg : Text) (s : Server W)
      → Owned s
      → (s.sessions a).attached ≡ some b
      → b ≢ a
      → (((handle_message fap a msg s).1.sessions a).attached ≡ some b)
        × (((handle_message fap a msg s).1.sessions a).env ≡ (s.sessions a).env)
  unfolding handle_message
  attached_stays b msg s h e apart =
      let f =
        with_end-Settled msg (find_first_of req_separator msg 0) s h
          (rw (owner_attached b s e) apart) in
      (f.attached ∙ e, f.env)
