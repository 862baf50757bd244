-- ===== src/Locks/Messages.antt =====
-- HandleMessage of server/sclient.cpp as code outside of the sections, and one section of Send.
use fap2_srv.Prelude.{ℕ, Text, some, List, [], ◌∷◌, ◌++◌, ◌≡◌, sym, ap, ◌∙◌, fun_ext, c_str}
use fap2_srv.Requests.{res_ok, res_error}
use fap2_srv.Fap.{Fap, Outcome, ok, threw}
use fap2_srv.Server.{Session, Server}
use fap2_srv.Session.{context_owner}
use fap2_srv.Session.Owned.{Owned}
use fap2_srv.Handler.{send, handle_message}
use fap2_srv.Handler.Answers.{Answered, success, failure, crash, handle_message-Answered}
use fap2_srv.Handler.Isolation.{Touches, handle_message-Isolated}
use fap2_srv.Locks.{sending, Unlocked, change}
use fap2_srv.Locks.Overlay.{section}

-- A message changed only what code outside of the sections may change, and then sent one packet or
-- threw.
pub data Splits {W : Type 0} (a : ℕ) (s : Server W) (r : Outcome (Unit {0}) × Server W)
    : Type 0 where
  replies :
      (u : Unlocked W) (text : Text)
      → r.0 ≡ ok tt
      → section a (sending text) (change u s) ≡ some r.1
      → Splits a s r
  throws : (u : Unlocked W) (what : Text) → r.0 ≡ threw what → r.1 ≡ change u s → Splits a s r

-- The part of a state that lies outside of the sections.
abbrev pub unlocked_part : {W : Type 0} → Server W → Unlocked W
unlocked_part t = record {
  env = λ b. (t.sessions b).env;
  ctx = λ b. (t.sessions b).ctx;
  attached = λ b. (t.sessions b).attached;
  world = t.world;
  closed_socks = t.closed_socks;
}

same_session :
    (c d : Session)
    → c.id ≡ d.id
    → c.name ≡ d.name
    → c.sock ≡ d.sock
    → c ≡ record d { env = c.env; ctx = c.ctx; attached = c.attached }
same_session c d id name sock = rw (id, name, sock)

module _ {W : Type 0} where
  Touches-change :
      (a o : ℕ) (s t : Server W)
      → Touches a o s t
      → record t { sent = s.sent } ≡ change (unlocked_part t) s
  Touches-change a o s t f =
      rw (f.clients, f.count)
        (ap (λ (g : ℕ → Session). record (change (unlocked_part t) s) { sessions = g })
          (fun_ext λ b. same_session (t.sessions b) (s.sessions b) (f.id b) (f.name b) (f.sock b)))

  -- A state that sent one packet more.
  Touches-section :
      (a o : ℕ) (s t : Server W) (text : Text)
      → Touches a o s t
      → t.sent ≡ s.sent ++ ((s.sessions a).sock, c_str text) ∷ []
      → section a (sending text) (change (unlocked_part t) s) ≡ some t
  unfolding section send
  Touches-section a o s t text f e =
      ap
        (λ (v : Server W).
          some (record v { sent = v.sent ++ ((v.sessions a).sock, c_str text) ∷ [] }))
        (sym (Touches-change a o s t f))
      ∙ rw (f.sock a, ← e)

  Touches-threw :
      (a o : ℕ) (s t : Server W)
      → Touches a o s t
      → t.sent ≡ s.sent
      → t ≡ change (unlocked_part t) s
  Touches-threw a o s t f e =
      ap (λ (x : List (ℕ × Text)). record t { sent = x }) e ∙ Touches-change a o s t f

module _ {W : Type 0} (fap : Fap W) where
  answer-Splits :
      (a o : ℕ) (msg : Text) (s : Server W) (r : Outcome (Unit {0}) × Server W)
      → Touches a o s r.1
      → Answered fap a msg s r
      → Splits a s r
  answer-Splits a o msg s r f (success args g e sent) =
      replies (unlocked_part r.1) (res_ok ++ 32 ∷ args) e
        (Touches-section a o s r.1 (res_ok ++ 32 ∷ args) f sent)
  answer-Splits a o msg s r f (failure args g e sent) =
      replies (unlocked_part r.1) (res_error ++ 32 ∷ args) e
        (Touches-section a o s r.1 (res_error ++ 32 ∷ args) f sent)
  answer-Splits a o msg s r f (crash end ctx sp found c e sent) =
      throws (unlocked_part r.1) _ e (Touches-threw a o s r.1 f sent)

  -- HandleMessage, in a state where no context map points to another session, changes before its
  -- last call no list of clients, no id, name or socket, and sends nothing; its last call is one
  -- Send, or an exception leaves it.
  pub handle_message-Splits :
      (a : ℕ) (msg : Text) (s : Server W) → Owned s → Splits a s (handle_message fap a msg s)
  handle_message-Splits a msg s h =
      answer-Splits a (context_owner s.sessions a) msg s _
        (handle_message-Isolated fap a msg s h).touches (handle_message-Answered fap a msg s)
