-- ===== src/Handler.antt =====
-- server/sclient.cpp: HandleMessage and Send.
pub mod Repeat
pub mod Rules
pub mod Answers
pub mod Isolation
pub mod Contexts
pub mod Redirected
pub mod Related
pub mod Masked
pub mod Overloads
use fap2_srv.Prelude.{
  ℕ, zero, suc, ◌+◌, Text, codes, find_first_of, c_str, take, drop, Option, none, some, [], ◌∷◌,
  ◌++◌,
}
use fap2_srv.Requests.{
  req_separator, res_ok, res_error, res_error_ctx_missing, res_error_ctx_notfound,
  res_error_nocspec,
}
use fap2_srv.Fap.{Fap, Outcome, ok, threw}
use fap2_srv.Server.{Iface, Server, Exec, ◌>>=◌, ◌>>◌, after}
use fap2_srv.Session.{add_context, get_context, call, uid}

-- substr(0, end), up to the end of the text if no separator was found.
abbrev pub context_id : Text → Option ℕ → Text
context_id msg none = msg
context_id msg (some end) = take end msg

-- cres.empty() ? "OK" : cres
abbrev pub or_ok : Text → Text
or_ok [] = codes "OK"
or_ok (c ∷ s) = c ∷ s

module _ {W : Type 0} where
  -- Send(const char*): the bytes up to the first NUL go to the session's socket.
  unfoldable pub send : ℕ → Text → Exec W (Unit {0})
  unfolding c_str
  send a message s =
      (ok tt, record s { sent = s.sent ++ ((s.sessions a).sock, c_str message) ∷ [] })

  -- Send(msg, msg_args)
  unfoldable pub reply : ℕ → Text → Text → Exec W (Unit {0})
  unfolding send
  reply a msg args = send a (msg ++ 32 ∷ args)

module _ {W : Type 0} (fap : Fap W) where
  -- What follows a call that returned.
  unfoldable pub respond : ℕ → Option Iface × Text → Exec W (Unit {0})
  unfolding reply add_context uid
  respond a (none, cres) s = reply a res_ok (or_ok cres) s
  respond a (some new_ctx, cres) s =
      (do add_context a (uid fap new_ctx s) (some new_ctx); reply a res_ok (uid fap new_ctx s)) s

  -- The `catch` of a call that threw.
  unfoldable pub catching :
      ℕ → Outcome (Option Iface × Text) × Server W → Outcome (Unit {0}) × Server W
  unfolding respond reply
  catching a (ok r, s) = respond a r s
  catching a (threw what, s) = reply a res_error what s

  -- The branches on the context that was found.
  unfoldable pub dispatch : ℕ → Text → Option ℕ → Option Iface → Exec W (Unit {0})
  unfolding call catching reply
  dispatch a msg end none s = reply a res_error res_error_ctx_notfound s
  dispatch a msg none (some ctx) s = reply a res_error res_error_nocspec s
  dispatch a msg (some end) (some ctx) s = catching a (call fap ctx (drop (end + 1) msg) s)

  -- The branches on the end of the context id.
  unfoldable pub with_end : ℕ → Text → Option ℕ → Exec W (Unit {0})
  unfolding dispatch reply get_context
  with_end a msg (some zero) s = reply a res_error res_error_ctx_missing s
  with_end a msg (some (suc n)) s =
      dispatch a msg (some (suc n)) (get_context a (context_id msg (some (suc n))) s) s
  with_end a msg none s = dispatch a msg none (get_context a (context_id msg none) s) s

  -- HandleMessage; what it throws ends the process.
  unfoldable pub handle_message : ℕ → Text → Exec W (Unit {0})
  unfolding with_end find_first_of
  handle_message a msg = with_end a msg (find_first_of req_separator msg 0)
