-- ===== src/Threads/Handles.antt =====
-- A handle in a reply, and what it leads to later in the run of the process.
use fap2_srv.Prelude.{
  ℕ, suc, ◌+◌, ◌<◌, Text, text_eq_self, find_first_of, take, drop, has, at, at-insert, text_key,
  some, false, ◌≡◌, ap, arith,
}
use fap2_srv.Requests.{req_separator}
use fap2_srv.Fap.{Fap, ok}
use fap2_srv.Server.{Iface, Server}
use fap2_srv.Session.{add_context, get_context, call, uid, context_owner, pointer}
use fap2_srv.Session.Lasting.{handle_message-Lasting}
use fap2_srv.Handler.{respond, catching, dispatch, with_end, handle_message}
use fap2_srv.Threads.{System, Reach}
use fap2_srv.Threads.Lasting.{Reach-Remains}

module _ {W : Type 0} (fap : Fap W) where
  -- The message puts the interface into the session's own map, whatever it is attached to.
  respond_enters :
      (a : ℕ) (new_ctx : Iface) (cres : Text) (t : Server W)
      → has (uid fap new_ctx t) (t.sessions a).ctx ≡ false
      → at (uid fap new_ctx t) ((respond fap a (some new_ctx, cres) t).1.sessions a).ctx
        ≡ some (some new_ctx)
  unfolding respond
  respond_enters a new_ctx cres t new =
      rw (new, add_context)
        (ground (
          arith,
          at-insert (uid fap new_ctx t) (uid fap new_ctx t) (some new_ctx) (t.sessions a).ctx new,
          text_eq_self (uid fap new_ctx t),
        ))

  handle_message_enters :
      (a end : ℕ) (msg cres : Text) (ctx new_ctx : Iface) (s t : Server W)
      → find_first_of req_separator msg 0 ≡ some (suc end)
      → get_context a (take (suc end) msg) s ≡ some ctx
      → call fap ctx (drop (suc end + 1) msg) s ≡ (ok (some new_ctx, cres), t)
      → has (uid fap new_ctx t) (t.sessions a).ctx ≡ false
      → at (uid fap new_ctx t) ((handle_message fap a msg s).1.sessions a).ctx ≡ some (some new_ctx)
  unfolding handle_message
  handle_message_enters a end msg cres ctx new_ctx s t sp found returned new =
      rw (sp, with_end)
        (rw (found, dispatch) (rw (returned, catching) (respond_enters a new_ctx cres t new)))

  -- Once a session that exists handles a message whose call returns an interface with a Uid that
  -- is no key of its context map, the Uid leads GetContext of that session to the interface in
  -- every state that the process can reach from there, whatever the threads do in between, in
  -- which the session is attached to no other.
  pub handle_lasts :
      {z : System W} (y : System W) (a end : ℕ) (msg cres : Text) (ctx new_ctx : Iface)
      (t : Server W)
      → find_first_of req_separator msg 0 ≡ some (suc end)
      → get_context a (take (suc end) msg) y.server ≡ some ctx
      → call fap ctx (drop (suc end + 1) msg) y.server ≡ (ok (some new_ctx, cres), t)
      → has (uid fap new_ctx t) (t.sessions a).ctx ≡ false
      → a < y.server.count
      → Reach fap (record y { server = (handle_message fap a msg y.server).1 }) z
      → context_owner z.server.sessions a ≡ a
      → get_context a (uid fap new_ctx t) z.server ≡ some new_ctx
  unfolding get_context
  handle_lasts {z = z} y a end msg cres ctx new_ctx t sp found returned new young r own =
      let l = (handle_message-Lasting fap a msg).at y.server in
      let (old, e) = Reach-Remains fap a r (omega (arith, l.count, young)) in
      let kept =
        e.ctx (uid fap new_ctx t) (some new_ctx)
          (handle_message_enters a end msg cres ctx new_ctx y.server t sp found returned new) in
      rw own (ap pointer kept)
