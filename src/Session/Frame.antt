-- ===== src/Session/Frame.antt =====
-- What the methods of a session leave alone: every session but two, and what was sent.
use fap2_srv.Prelude.{ℕ, Text, insert, text_key, ℤ, Option, some, ◌≡◌, ◌≢◌, refl, ◌∙◌, arith}
use fap2_srv.Fap.{Fap, Outcome}
use fap2_srv.Server.{Iface, extern, Session, Server, lift, modify}
use fap2_srv.Server.Keeps.{IsPreorder, Keeps}
use fap2_srv.Session.Rules.{
  add_context-Keeps, attach_env-Keeps, build_env-Keeps, create_env-Keeps, session_call-Keeps,
  extern_call-Keeps,
}
use fap2_srv.Session.{env_key, add_context, attach_env, create_env, session_call, call, extern_ptr}

-- The state `t` differs from `s` in the library's state and in the sessions `a` and `o` at most,
-- and there not in the number, the name and the socket.
pub record Frame {W : Type 0} (a o : ℕ) (s t : Server W) : Type 0 where
  pub sent : t.sent ≡ s.sent
  pub clients : t.clients ≡ s.clients
  pub count : t.count ≡ s.count
  pub sock : (b : ℕ) → (t.sessions b).sock ≡ (s.sessions b).sock
  pub id : (b : ℕ) → (t.sessions b).id ≡ (s.sessions b).id
  pub name : (b : ℕ) → (t.sessions b).name ≡ (s.sessions b).name
  pub other : (b : ℕ) → b ≢ a → b ≢ o → t.sessions b ≡ s.sessions b

pub Frame-IsPreorder : {W : Type 0} (a o : ℕ) → IsPreorder {W = W} (Frame a o)
Frame-IsPreorder a o = record {
  idle = λ s. record {
    sent = refl;
    clients = refl;
    count = refl;
    sock = λ b. refl;
    id = λ b. refl;
    name = λ b. refl;
    other = λ b h k. refl;
  };
  join = λ f g. record {
    sent = g.sent ∙ f.sent;
    clients = g.clients ∙ f.clients;
    count = g.count ∙ f.count;
    sock = λ b. g.sock b ∙ f.sock b;
    id = λ b. g.id b ∙ f.id b;
    name = λ b. g.name b ∙ f.name b;
    other = λ b h k. g.other b h k ∙ f.other b h k;
  };
}

pub Frame-swap : {W : Type 0} {a o : ℕ} {s t : Server W} → Frame a o s t → Frame o a s t
Frame-swap f = record {
  sent = f.sent;
  clients = f.clients;
  count = f.count;
  sock = f.sock;
  id = f.id;
  name = f.name;
  other = λ b h k. f.other b k h;
}

pub lift-Frame :
    {W : Type 0} (a o : ℕ) (A : Type 0) (m : W → Outcome A × W) → Keeps {W = W} (Frame a o) (lift m)
unfolding lift
lift-Frame a o A m = record {
  at = λ s. record {
    sent = refl;
    clients = refl;
    count = refl;
    sock = λ b. refl;
    id = λ b. refl;
    name = λ b. refl;
    other = λ b h k. refl;
  };
}

-- A change of the fields that may change.
record IsMild (f : Session → Session) : Type 0 where
  sock : (c : Session) → (f c).sock ≡ c.sock
  id : (c : Session) → (f c).id ≡ c.id
  name : (c : Session) → (f c).name ≡ c.name

modify-Frame :
    {W : Type 0} (a o : ℕ) (f : Session → Session)
    → IsMild f
    → Keeps {W = W} (Frame a o) (modify a f)
unfolding modify
modify-Frame a o f mild = record {
  at = λ s. record {
    sent = refl;
    clients = refl;
    count = refl;
    sock = λ b. ground (arith, mild.sock (s.sessions a));
    id = λ b. ground (arith, mild.id (s.sessions a));
    name = λ b. ground (arith, mild.name (s.sessions a));
    other = λ b h k. ground arith;
  };
}

set_ctx-Frame :
    {W : Type 0} (a o : ℕ) (handle : Text) (ptr : Option Iface)
    → Keeps {W = W} (Frame a o) (modify a (λ c. record c { ctx = insert handle ptr c.ctx }))
set_ctx-Frame a o handle ptr =
    modify-Frame a o _ (record { sock = λ c. refl; id = λ c. refl; name = λ c. refl })

set_attached-Frame :
    {W : Type 0} (a o b : ℕ)
    → Keeps {W = W} (Frame a o) (modify a (λ c. record c { attached = some b }))
set_attached-Frame a o b =
    modify-Frame a o _ (record { sock = λ c. refl; id = λ c. refl; name = λ c. refl })

set_env-Frame :
    {W : Type 0} (a o : ℕ) (env : Option ℕ)
    → Keeps {W = W} (Frame a o) (modify a (λ c. record c { env = env }))
set_env-Frame a o env =
    modify-Frame a o _ (record { sock = λ c. refl; id = λ c. refl; name = λ c. refl })

pub add_context-Frame :
    {W : Type 0} (a o : ℕ) (handle : Text) (ptr : Option Iface)
    → Keeps {W = W} (Frame a o) (add_context a handle ptr)
add_context-Frame a o handle ptr =
    add_context-Keeps (Frame-IsPreorder a o) a handle ptr (set_ctx-Frame a o handle ptr)

module _ {W : Type 0} (fap : Fap W) (a o : ℕ) where
  pub create_env-Frame : (chromo : Text) → Keeps (Frame a o) (create_env fap a chromo)
  create_env-Frame chromo =
      create_env-Keeps (Frame-IsPreorder a o) (lift-Frame a o) fap a chromo λ sid.
        build_env-Keeps (Frame-IsPreorder a o) (lift-Frame a o) fap a chromo sid (set_env-Frame a o)
          (λ ptr. add_context-Frame a o env_key (extern_ptr ptr))

  attach_env-Frame : (id : ℤ) → Keeps {W = W} (Frame a o) (attach_env a id)
  attach_env-Frame id = attach_env-Keeps (Frame-IsPreorder a o) a id (set_attached-Frame a o)

  pub session_call-Frame : (spec : Text) → Keeps (Frame a o) (session_call fap a spec)
  session_call-Frame spec =
      session_call-Keeps (Frame-IsPreorder a o) (lift-Frame a o) fap a spec create_env-Frame
        attach_env-Frame

  pub extern_call-Frame : (r : ℕ) (spec : Text) → Keeps (Frame a o) (call fap (extern r) spec)
  extern_call-Frame r spec = extern_call-Keeps (Frame-IsPreorder a o) (lift-Frame a o) fap r spec
