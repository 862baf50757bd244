-- ===== src/Handler/Answers.antt =====
-- Every message is answered once, on the socket that it came from.
use fap2_srv.Prelude.{
  ℕ, zero, suc, ◌+◌, Text, codes, c_str, find_first_of, take, drop, has, text_key, Option, none,
  some, Bool-cases, inl, inr, [], ◌∷◌, ◌++◌, true, false, ◌≡◌, refl, ap, arith,
}
use fap2_srv.Requests.{
  req_separator, res_ok, res_error, res_error_ctx_missing, res_error_ctx_notfound,
  res_error_nocspec,
}
use fap2_srv.Fap.{Fap, Outcome, ok, threw}
use fap2_srv.Server.{Iface, session, extern, Server}
use fap2_srv.Server.Keeps.{Keeps}
use fap2_srv.Session.{add_context, get_context, call, uid}
use fap2_srv.Session.Frame.{Frame, Frame-swap, session_call-Frame, extern_call-Frame}
use fap2_srv.Handler.{context_id, or_ok, respond, catching, dispatch, with_end, handle_message}

-- The bytes of a reply.
abbrev pub packet : Text → Text → Text
packet msg args = c_str (msg ++ 32 ∷ args)

-- A call that returned an interface whose Uid is a key of the session's context map already.
pub record Collides {W : Type 0} (fap : Fap W) (a : ℕ) (spec : Text) (ctx : Iface) (s : Server W)
    : Type 0 where
  pub new_ctx : Iface
  pub res : Text
  pub state : Server W
  pub returned : call fap ctx spec s ≡ (ok (some new_ctx, res), state)
  pub taken : has (uid fap new_ctx state) (state.sessions a).ctx ≡ true

-- The argument of a reply `O`: the text of the result, or the Uid of the interface.
pub data Granted {W : Type 0} (fap : Fap W) (a : ℕ) (msg : Text) (s : Server W)
    : Text → Type 0 where
  result :
      (end : ℕ) (ctx : Iface) (res : Text) (t : Server W)
      → find_first_of req_separator msg 0 ≡ some end
      → get_context a (take end msg) s ≡ some ctx
      → call fap ctx (drop (end + 1) msg) s ≡ (ok (none, res), t)
      → Granted fap a msg s (or_ok res)
  handle :
      (end : ℕ) (ctx new_ctx : Iface) (res : Text) (t : Server W)
      → find_first_of req_separator msg 0 ≡ some end
      → get_context a (take end msg) s ≡ some ctx
      → call fap ctx (drop (end + 1) msg) s ≡ (ok (some new_ctx, res), t)
      → has (uid fap new_ctx t) (t.sessions a).ctx ≡ false
      → Granted fap a msg s (uid fap new_ctx t)

-- The argument of a reply `E`.
pub data Refused {W : Type 0} (fap : Fap W) (a : ℕ) (msg : Text) (s : Server W)
    : Text → Type 0 where
  no_context :
      find_first_of req_separator msg 0 ≡ some 0 → Refused fap a msg s res_error_ctx_missing
  unknown :
      (end : Option ℕ)
      → find_first_of req_separator msg 0 ≡ end
      → get_context a (context_id msg end) s ≡ none
      → Refused fap a msg s res_error_ctx_notfound
  no_call :
      (ctx : Iface)
      → find_first_of req_separator msg 0 ≡ none
      → get_context a msg s ≡ some ctx
      → Refused fap a msg s res_error_nocspec
  raised :
      (end : ℕ) (ctx : Iface) (what : Text) (t : Server W)
      → find_first_of req_separator msg 0 ≡ some end
      → get_context a (take end msg) s ≡ some ctx
      → call fap ctx (drop (end + 1) msg) s ≡ (threw what, t)
      → Refused fap a msg s what

-- What became of a message: one reply, or the end of the process with nothing sent.
pub data Answered {W : Type 0} (fap : Fap W) (a : ℕ) (msg : Text) (s : Server W)
    (r : Outcome (Unit {0}) × Server W) : Type 0 where
  success :
      (args : Text)
      → Granted fap a msg s args
      → r.0 ≡ ok tt
      → r.1.sent ≡ s.sent ++ ((s.sessions a).sock, packet res_ok args) ∷ []
      → Answered fap a msg s r
  failure :
      (args : Text)
      → Refused fap a msg s args
      → r.0 ≡ ok tt
      → r.1.sent ≡ s.sent ++ ((s.sessions a).sock, packet res_error args) ∷ []
      → Answered fap a msg s r
  crash :
      (end : ℕ) (ctx : Iface)
      → find_first_of req_separator msg 0 ≡ some end
      → get_context a (take end msg) s ≡ some ctx
      → Collides fap a (drop (end + 1) msg) ctx s
      → r.0 ≡ threw (codes "Context already exists")
      → r.1.sent ≡ s.sent
      → Answered fap a msg s r

-- The session that a call through the pointer may change.
abbrev pub target : Iface → ℕ → ℕ
target (session b) a = b
target (extern r) a = a

module _ {W : Type 0} (fap : Fap W) where
  pub call-Frame :
      (a : ℕ) (ctx : Iface) (spec : Text) → Keeps (Frame a (target ctx a)) (call fap ctx spec)
  unfolding call
  call-Frame a (session b) spec = record {
    at = λ s. Frame-swap ((session_call-Frame fap b a spec).at s);
  }
  call-Frame a (extern r) spec = extern_call-Frame fap a a r spec

  pub respond_new :
      (a : ℕ) (new_ctx : Iface) (cres : Text) (s : Server W)
      → has (uid fap new_ctx s) (s.sessions a).ctx ≡ false
      → ((respond fap a (some new_ctx, cres) s).0 ≡ ok tt)
        × ((respond fap a (some new_ctx, cres) s).1.sent
            ≡ s.sent ++ ((s.sessions a).sock, packet res_ok (uid fap new_ctx s)) ∷ [])
  unfolding respond
  respond_new a new_ctx cres s new = rw (new, add_context) (ground arith)

  pub respond_old :
      (a : ℕ) (new_ctx : Iface) (cres : Text) (s : Server W)
      → has (uid fap new_ctx s) (s.sessions a).ctx ≡ true
      → respond fap a (some new_ctx, cres) s ≡ (threw (codes "Context already exists"), s)
  unfolding respond
  respond_old a new_ctx cres s old = rw (old, add_context)

  dispatch_answers :
      (a end : ℕ) (msg : Text) (ctx : Iface) (s : Server W)
      → find_first_of req_separator msg 0 ≡ some end
      → get_context a (take end msg) s ≡ some ctx
      → (r : Outcome (Option Iface × Text)) (t : Server W)
      → call fap ctx (drop (end + 1) msg) s ≡ (r, t)
      → Frame a (target ctx a) s t
      → Answered fap a msg s (catching fap a (r, t))
  unfolding catching
  dispatch_answers a end msg ctx s sp found (threw what) t e f =
      failure what (raised end ctx what t sp found e) refl (rw (f.sent, f.sock a))
  dispatch_answers a end msg ctx s sp found (ok (none, cres)) t e f =
      success (or_ok cres) (result end ctx cres t sp found e) refl (rw (f.sent, f.sock a))
  dispatch_answers a end msg ctx s sp found (ok (some new_ctx, cres)) t e f =
      elim (Bool-cases (has (uid fap new_ctx t) (t.sessions a).ctx)) [
        | inl old ↦ rw (respond_old a new_ctx cres t old) (
            crash end ctx sp found
              (record { new_ctx = new_ctx; res = cres; state = t; returned = e; taken = old }) refl
              f.sent)
        | inr new ↦
            success (uid fap new_ctx t) (handle end ctx new_ctx cres t sp found e new)
              (respond_new a new_ctx cres t new).0
              (rw (← f.sent, ← f.sock a) (respond_new a new_ctx cres t new).1)
      ]

  -- The two ways in which the context is looked up and used.
  with_context :
      (a : ℕ) (msg : Text) (s : Server W) (end : Option ℕ)
      → find_first_of req_separator msg 0 ≡ end
      → (ptr : Option Iface) → get_context a (context_id msg end) s ≡ ptr
      → Answered fap a msg s (dispatch fap a msg end ptr s)
  unfolding dispatch
  with_context a msg s end sp none found =
      failure res_error_ctx_notfound (unknown end sp found) refl refl
  with_context a msg s none sp (some ctx) found =
      failure res_error_nocspec (no_call ctx sp found) refl refl
  with_context a msg s (some end) sp (some ctx) found =
      dispatch_answers a end msg ctx s sp found _ _ refl
        ((call-Frame a ctx (drop (end + 1) msg)).at s)

  with_end_answers :
      (a : ℕ) (msg : Text) (s : Server W) (end : Option ℕ)
      → find_first_of req_separator msg 0 ≡ end
      → Answered fap a msg s (with_end fap a msg end s)
  unfolding with_end
  with_end_answers a msg s (some zero) sp = failure res_error_ctx_missing (no_context sp) refl refl
  with_end_answers a msg s (some (suc n)) sp = with_context a msg s (some (suc n)) sp _ refl
  with_end_answers a msg s none sp = with_context a msg s none sp _ refl

  -- Every message is answered by exactly one packet on the socket of its session: `O` with the text
  -- of the result or the new Uid if the call returned, `E` with what the call threw or with what is
  -- wrong with the message. Only if the call returned an interface whose Uid is a key of the
  -- session's contexts already, nothing is sent and the handler throws.
  pub handle_message-Answered :
      (a : ℕ) (msg : Text) (s : Server W) → Answered fap a msg s (handle_message fap a msg s)
  unfolding handle_message
  handle_message-Answered a msg s = with_end_answers a msg s _ refl

  -- A message whose call returns an interface whose Uid is a key of the session's contexts throws
  -- out of the handler, which ends the process.
  pub handle_message-crash :
      (a end : ℕ) (msg : Text) (ctx : Iface) (s : Server W)
      → find_first_of req_separator msg 0 ≡ some (suc end)
      → get_context a (take (suc end) msg) s ≡ some ctx
      → Collides fap a (drop (suc end + 1) msg) ctx s
      → (handle_message fap a msg s).0 ≡ threw (codes "Context already exists")
  unfolding handle_message with_end dispatch
  handle_message-crash a end msg ctx s sp found c =
      rw (sp, with_end)
        (rw (found, dispatch)
          (rw (c.returned, catching)
            (ap (λ (r : Outcome (Unit {0}) × Server W). r.0)
              (respond_old a c.new_ctx c.res c.state c.taken))))
