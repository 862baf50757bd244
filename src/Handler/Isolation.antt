-- ===== src/Handler/Isolation.antt =====
-- Which sessions a message can change, and that context maps never point to another session.
use fap2_srv.Prelude.{
  ℕ, zero, suc, ◌+◌, Text, find_first_of, drop, text_key, Option, none, some, ◌≡◌, refl, ap, subst,
}
use fap2_srv.Requests.{
  req_separator, res_ok, res_error, res_error_ctx_missing, res_error_ctx_notfound,
  res_error_nocspec,
}
use fap2_srv.Fap.{Fap, Outcome, ok, threw}
use fap2_srv.Server.{Iface, session, extern, Server, after}
use fap2_srv.Session.{add_context, get_context, call, uid, context_owner, pointer}
use fap2_srv.Session.Frame.{Frame, Frame-IsPreorder, add_context-Frame, extern_call-Frame}
use fap2_srv.Session.Returns.{Foreign, call-Foreign}
use fap2_srv.Session.Owned.{Owned, Fits, add_context-Preserves, call-Preserves}
use fap2_srv.Handler.{
  context_id, or_ok, reply, respond, catching, dispatch, with_end, handle_message,
}
use fap2_srv.Handler.Answers.{target, call-Frame}

-- `t` is `s` but for what was sent, the state of the library and the sessions `a` and `o`.
abbrev pub Touches : {W : Type 0} → ℕ → ℕ → Server W → Server W → Type 0
Touches a o s t = Frame a o s (record t { sent = s.sent })

pub Frame-Touches : {W : Type 0} {a o : ℕ} {s t : Server W} → Frame a o s t → Touches a o s t
Frame-Touches f = record {
  sent = refl;
  clients = f.clients;
  count = f.count;
  sock = f.sock;
  id = f.id;
  name = f.name;
  other = f.other;
}

-- What holds of a message: the invariant stays, and no third session changes.
pub record Isolated {W : Type 0} (a o : ℕ) (s t : Server W) : Type 0 where
  pub owned : Owned t
  pub touches : Touches a o s t

pointer-some : (o : Option (Option Iface)) (i : Iface) → pointer o ≡ some i → o ≡ some (some i)
pointer-some none i h = cc
pointer-some (some p) i h = cc

Foreign-Fits :
    (a : ℕ) (new_ctx : Iface) (res : Text) → Foreign (some new_ctx, res) → Fits a (some new_ctx)
Foreign-Fits a (session b) res f = absurd f
Foreign-Fits a (extern r) res f = tt

module _ {W : Type 0} where
  -- An interface that a lookup gave is the owner of the map or an object of the library.
  pub get_context-target :
      (a : ℕ) (k : Text) (s : Server W) (i : Iface)
      → Owned s
      → get_context a k s ≡ some i
      → (target i (context_owner s.sessions a)) ≡ context_owner s.sessions a
  unfolding get_context
  get_context-target a k s (session c) h e = h.self _ c k (pointer-some _ (session c) e)
  get_context-target a k s (extern r) h e = refl

  reply-Isolated :
      (a o : ℕ) (msg args : Text) (s t : Server W)
      → Owned t
      → Touches a o s t
      → Isolated a o s (reply a msg args t).1
  unfolding reply
  reply-Isolated a o msg args s t h f = record { owned = record { self = h.self }; touches = f }

module _ {W : Type 0} (fap : Fap W) where
  respond-Isolated :
      (a o : ℕ) (r : Option Iface × Text) (s t : Server W)
      → Foreign r
      → Owned t
      → Frame a o s t
      → Isolated a o s (respond fap a r t).1
  unfolding respond
  respond-Isolated a o (none, cres) s t r h f =
      reply-Isolated a o res_ok (or_ok cres) s t h (Frame-Touches f)
  respond-Isolated a o (some new_ctx, cres) s t r h f =
      go (add_context a (uid fap new_ctx t) (some new_ctx) t)
        ((add_context-Preserves a (uid fap new_ctx t) (some new_ctx)
            (Foreign-Fits a new_ctx cres r)).at
          t h)
        ((Frame-IsPreorder a o).join f
          ((add_context-Frame a o (uid fap new_ctx t) (some new_ctx)).at t))
    where
      go :
          (u : Outcome (Unit {0}) × Server W)
          → Owned u.1
          → Frame a o s u.1
          → Isolated a o s (after u (λ _. reply a res_ok (uid fap new_ctx t))).1
      go (ok done, u) hu fu =
          reply-Isolated a o res_ok (uid fap new_ctx t) s u hu (Frame-Touches fu)
      go (threw e, u) hu fu = record { owned = hu; touches = Frame-Touches fu }

  catching-Isolated :
      (a o : ℕ) (spec : Text) (ctx : Iface) (s : Server W)
      → Owned s
      → (r : Outcome (Option Iface × Text)) (t : Server W) → call fap ctx spec s ≡ (r, t)
      → Frame a o s t
      → Isolated a o s (catching fap a (r, t)).1
  unfolding catching
  catching-Isolated a o spec ctx s h (ok r) t e f =
      respond-Isolated a o r s t
        ((call-Foreign fap ctx spec).at s r
          (ap (λ (x : Outcome (Option Iface × Text) × Server W). x.0) e))
        (rw (ap (λ (x : Outcome (Option Iface × Text) × Server W). x.1) e) at
          ((call-Preserves fap ctx spec).at s h))
        f
  catching-Isolated a o spec ctx s h (threw what) t e f =
      reply-Isolated a o res_error what s t
        (rw (ap (λ (x : Outcome (Option Iface × Text) × Server W). x.1) e) at
          ((call-Preserves fap ctx spec).at s h))
        (Frame-Touches f)

  owner-Frame :
      (a : ℕ) (msg key : Text) (end : ℕ) (ctx : Iface) (s : Server W)
      → Owned s
      → get_context a key s ≡ some ctx
      → Frame a (context_owner s.sessions a) s (call fap ctx (drop (end + 1) msg) s).1
  owner-Frame a msg key end (session b) s h e =
      subst (λ o. Frame a o s (call fap (session b) (drop (end + 1) msg) s).1)
        (get_context-target a key s (session b) h e)
        ((call-Frame fap a (session b) (drop (end + 1) msg)).at s)
  owner-Frame a msg key end (extern r) s h e =
      (extern_call-Frame fap a (context_owner s.sessions a) r (drop (end + 1) msg)).at s

  dispatch-Isolated :
      (a : ℕ) (msg key : Text) (end : Option ℕ) (ptr : Option Iface) (s : Server W)
      → Owned s
      → get_context a key s ≡ ptr
      → Isolated a (context_owner s.sessions a) s (dispatch fap a msg end ptr s).1
  unfolding dispatch
  dispatch-Isolated a msg key end none s h e =
      reply-Isolated a _ res_error res_error_ctx_notfound s s h
        (Frame-Touches ((Frame-IsPreorder a _).idle s))
  dispatch-Isolated a msg key none (some ctx) s h e =
      reply-Isolated a _ res_error res_error_nocspec s s h
        (Frame-Touches ((Frame-IsPreorder a _).idle s))
  dispatch-Isolated a msg key (some end) (some ctx) s h e =
      catching-Isolated a (context_owner s.sessions a) (drop (end + 1) msg) ctx s h _ _ refl
        (owner-Frame a msg key end ctx s h e)

  with_end-Isolated :
      (a : ℕ) (msg : Text) (end : Option ℕ) (s : Server W)
      → Owned s
      → Isolated a (context_owner s.sessions a) s (with_end fap a msg end s).1
  unfolding with_end
  with_end-Isolated a msg (some zero) s h =
      reply-Isolated a _ res_error res_error_ctx_missing s s h
        (Frame-Touches ((Frame-IsPreorder a _).idle s))
  with_end-Isolated a msg (some (suc n)) s h =
      dispatch-Isolated a msg (context_id msg (some (suc n))) (some (suc n)) _ s h refl
  with_end-Isolated a msg none s h = dispatch-Isolated a msg (context_id msg none) none _ s h refl

  -- A message changes no session but its own and the one that it is attached to, in these neither
  -- the number nor the name nor the socket, and not the list of clients; and the context maps
  -- still hold no pointer to another session than their own.
  pub handle_message-Isolated :
      (a : ℕ) (msg : Text) (s : Server W)
      → Owned s
      → Isolated a (context_owner s.sessions a) s (handle_message fap a msg s).1
  unfolding handle_message
  handle_message-Isolated a msg s h =
      with_end-Isolated a msg (find_first_of req_separator msg 0) s h
