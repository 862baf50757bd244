-- ===== src/Handler/Related.antt =====
-- The messages of a session on related states.
use fap2_srv.Prelude.{
  ℕ, zero, suc, ◌+◌, Text, find_first_of, drop, Option, none, some, ◌≡◌, refl, subst,
}
use fap2_srv.Requests.{
  req_separator, res_ok, res_error, res_error_ctx_missing, res_error_ctx_notfound,
  res_error_nocspec,
}
use fap2_srv.Fap.{Fap, Outcome, ok, threw}
use fap2_srv.Server.{Iface, Server, lift, ◌>>◌}
use fap2_srv.Server.Related.{Agree, Respects, Respects-bind, Respects-read}
use fap2_srv.Session.{add_context, uid, get_context}
use fap2_srv.Session.Related.{Matched, Callable, add_context-Respects, call-Respects}
use fap2_srv.Handler.{
  or_ok, context_id, reply, respond, catching, dispatch, with_end, handle_message,
}

module _ {W : Type 0} {R : Server W → Server W → Type 0}
    (lifts : (A : Type 0) (m : W → Outcome A × W) → Respects R (lift m)) (fap : Fap W)
    (uids : (i : Iface) (s t : Server W) → R s t → uid fap i s ≡ uid fap i t) (a : ℕ)
    (own : Matched R a) (replies : (msg args : Text) → Respects {W = W} R (reply a msg args)) where
  respond-Respects : (r : Option Iface × Text) → Respects R (respond fap a r)
  unfolding respond
  respond-Respects (none, cres) = replies res_ok (or_ok cres)
  respond-Respects (some new_ctx, cres) =
      Respects-read (uid fap new_ctx)
        (λ name. do add_context a name (some new_ctx); reply a res_ok name) (uids new_ctx)
        λ name.
          Respects-bind (add_context a name (some new_ctx)) _
            (add_context-Respects a own name (some new_ctx)) λ _. replies res_ok name

  caught :
      (o : Outcome (Option Iface × Text)) {s t : Server W}
      → R s t
      → Agree R (catching fap a (o, s)) (catching fap a (o, t))
  unfolding catching
  caught (ok r) h = (respond-Respects r).at h
  caught (threw what) h = (replies res_error what).at h

  catching-Agree :
      (x y : Outcome (Option Iface × Text) × Server W)
      → Agree R x y
      → Agree R (catching fap a x) (catching fap a y)
  catching-Agree (o, s) (o', t) h =
      subst (λ q. Agree R (catching fap a (o, s)) (catching fap a (q, t))) h.outcome
        (caught o h.states)

  module _ (s t : Server W) (r : R s t)
      (looks : (key : Text) → get_context a key s ≡ get_context a key t)
      (calls : (key : Text) (ctx : Iface)
        → get_context a key s ≡ some ctx
        → Callable {R = R} lifts fap ctx) where
    dispatch-Agree :
        (msg key : Text) (end : Option ℕ) (ptr : Option Iface)
        → get_context a key s ≡ ptr
        → Agree R (dispatch fap a msg end ptr s) (dispatch fap a msg end ptr t)
    unfolding dispatch
    dispatch-Agree msg key end none e = (replies res_error res_error_ctx_notfound).at r
    dispatch-Agree msg key none (some ctx) e = (replies res_error res_error_nocspec).at r
    dispatch-Agree msg key (some end) (some ctx) e =
        catching-Agree _ _
          ((call-Respects lifts fap ctx (drop (end + 1) msg) (calls key ctx e)).at r)

    looked_up :
        (msg key : Text) (end : Option ℕ)
        → Agree R
            (dispatch fap a msg end (get_context a key s) s)
            (dispatch fap a msg end (get_context a key t) t)
    looked_up msg key end =
        subst
          (λ ptr.
            Agree R (dispatch fap a msg end (get_context a key s) s) (dispatch fap a msg end ptr t))
          (looks key) (dispatch-Agree msg key end _ refl)

    with_end-Agree :
        (msg : Text) (end : Option ℕ)
        → Agree R (with_end fap a msg end s) (with_end fap a msg end t)
    unfolding with_end
    with_end-Agree msg (some zero) = (replies res_error res_error_ctx_missing).at r
    with_end-Agree msg (some (suc n)) = looked_up msg (context_id msg (some (suc n))) (some (suc n))
    with_end-Agree msg none = looked_up msg (context_id msg none) none

    pub handle_message-Agree :
        (msg : Text) → Agree R (handle_message fap a msg s) (handle_message fap a msg t)
    unfolding handle_message
    handle_message-Agree msg = with_end-Agree msg (find_first_of req_separator msg 0)
