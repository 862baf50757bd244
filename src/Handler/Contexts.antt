-- ===== src/Handler/Contexts.antt =====
-- The contexts that replies hand out, and what looking them up gives afterwards.
use fap2_srv.Prelude.{
  ℕ, suc, ◌+◌, ◌==◌, ◌&&◌, if◌then◌else◌, Text, text_eq, find_first_of, take, drop, has, at-insert,
  text_key, some, Option-cases, inl, inr, false, ◌≡◌, arith,
}
use fap2_srv.Requests.{req_separator}
use fap2_srv.Fap.{Fap, ok}
use fap2_srv.Server.{Iface, Server}
use fap2_srv.Session.{add_context, get_context, call, uid, context_owner}
use fap2_srv.Handler.{respond, catching, dispatch, with_end, handle_message}

module _ {W : Type 0} (fap : Fap W) where
  respond_contexts :
      (a : ℕ) (new_ctx : Iface) (cres : Text) (t : Server W)
      → has (uid fap new_ctx t) (t.sessions a).ctx ≡ false
      → (k : Text)
      → get_context a k (respond fap a (some new_ctx, cres) t).1 ≡ (
          if (context_owner t.sessions a == a) && text_eq (uid fap new_ctx t) k
          then some new_ctx
          else get_context a k t)
  unfolding respond get_context context_owner
  respond_contexts a new_ctx cres t new k = elim (Option-cases (t.sessions a).attached) [
    | inl e ↦
        rw (new, add_context)
          (ground (arith, e, at-insert (uid fap new_ctx t) k (some new_ctx) (t.sessions a).ctx new))
    | inr (b, e) ↦
        rw (new, add_context)
          (ground (arith, e, at-insert (uid fap new_ctx t) k (some new_ctx) (t.sessions a).ctx new))
  ]

  -- After a reply that hands out an interface, its Uid is a context for the session that asked, if
  -- that is attached to no other; for an attached session no context has changed.
  pub handle_message-get_context :
      (a end : ℕ) (msg cres : Text) (ctx new_ctx : Iface) (s t : Server W)
      → find_first_of req_separator msg 0 ≡ some (suc end)
      → get_context a (take (suc end) msg) s ≡ some ctx
      → call fap ctx (drop (suc end + 1) msg) s ≡ (ok (some new_ctx, cres), t)
      → has (uid fap new_ctx t) (t.sessions a).ctx ≡ false
      → (k : Text)
      → get_context a k (handle_message fap a msg s).1 ≡ (
          if (context_owner t.sessions a == a) && text_eq (uid fap new_ctx t) k
          then some new_ctx
          else get_context a k t)
  unfolding handle_message
  handle_message-get_context a end msg cres ctx new_ctx s t sp found returned new k =
      rw (sp, with_end)
        (rw (found, dispatch) (rw (returned, catching) (respond_contexts a new_ctx cres t new k)))
