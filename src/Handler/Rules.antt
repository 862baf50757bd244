-- ===== src/Handler/Rules.antt =====
-- How a relation between states passes from the parts of HandleMessage to HandleMessage.
use fap2_srv.Prelude.{ℕ, zero, suc, ◌+◌, Text, find_first_of, drop, Option, none, some}
use fap2_srv.Requests.{
  req_separator, res_ok, res_error, res_error_ctx_missing, res_error_ctx_notfound,
  res_error_nocspec,
}
use fap2_srv.Fap.{Fap, Outcome, ok, threw}
use fap2_srv.Server.{Iface, Server}
use fap2_srv.Server.Keeps.{IsPreorder, Keeps, Keeps-bind}
use fap2_srv.Session.{add_context, call, uid}
use fap2_srv.Handler.{or_ok, reply, respond, catching, dispatch, with_end, handle_message}

module _ {W : Type 0} {R : Server W → Server W → Type 0} (pre : IsPreorder R) (fap : Fap W)
    (replies : (a : ℕ) (msg args : Text) → Keeps R (reply a msg args))
    (adds : (a : ℕ) (key : Text) (ptr : Option Iface) → Keeps R (add_context a key ptr)) where
  respond-Keeps : (a : ℕ) (r : Option Iface × Text) → Keeps R (respond fap a r)
  unfolding respond
  respond-Keeps a (none, cres) = record { at = λ s. (replies a res_ok (or_ok cres)).at s }
  respond-Keeps a (some new_ctx, cres) = record {
    at = λ s.
        (Keeps-bind pre (add_context a (uid fap new_ctx s) (some new_ctx)) _ (adds a _ _)
            (λ _. replies a res_ok (uid fap new_ctx s))).at
          s;
  }

  pub catching-Keeps :
      (a : ℕ) (s : Server W) (r : Outcome (Option Iface × Text) × Server W)
      → R s r.1
      → R s (catching fap a r).1
  unfolding catching
  catching-Keeps a s (ok r, t) h = pre.join h ((respond-Keeps a r).at t)
  catching-Keeps a s (threw what, t) h = pre.join h ((replies a res_error what).at t)

  module _ (calls : (ctx : Iface) (spec : Text) → Keeps R (call fap ctx spec)) where
    dispatch-Keeps :
        (a : ℕ) (msg : Text) (end : Option ℕ) (ptr : Option Iface)
        → Keeps R (dispatch fap a msg end ptr)
    unfolding dispatch
    dispatch-Keeps a msg end none = record {
      at = λ s. (replies a res_error res_error_ctx_notfound).at s;
    }
    dispatch-Keeps a msg none (some ctx) = record {
      at = λ s. (replies a res_error res_error_nocspec).at s;
    }
    dispatch-Keeps a msg (some end) (some ctx) = record {
      at = λ s. catching-Keeps a s _ ((calls ctx (drop (end + 1) msg)).at s);
    }

    with_end-Keeps : (a : ℕ) (msg : Text) (end : Option ℕ) → Keeps R (with_end fap a msg end)
    unfolding with_end
    with_end-Keeps a msg none = record { at = λ s. (dispatch-Keeps a msg none _).at s }
    with_end-Keeps a msg (some zero) = record {
      at = λ s. (replies a res_error res_error_ctx_missing).at s;
    }
    with_end-Keeps a msg (some (suc n)) = record {
      at = λ s. (dispatch-Keeps a msg (some (suc n)) _).at s;
    }

    pub handle_message-Keeps : (a : ℕ) (msg : Text) → Keeps R (handle_message fap a msg)
    unfolding handle_message
    handle_message-Keeps a msg = with_end-Keeps a msg (find_first_of req_separator msg 0)
