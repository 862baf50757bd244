-- ===== src/Session/Lasting.antt =====
-- What code of the sessions leaves as it is, whatever session it is called on.
use fap2_srv.Prelude.{
  ℕ, Text, codes, has, at, insert, insert-keeps, text_key, ℤ, Option, none, some, Option-cases,
  Bool-cases, false, inl, inr, ◌++◌, ◌≡◌, refl, ◌∙◌, arith,
}
use fap2_srv.Fap.{Fap, Outcome}
use fap2_srv.Server.{Iface, session, extern, Session, Server, lift, modify}
use fap2_srv.Server.Keeps.{IsPreorder, Keeps, lift_cases}
use fap2_srv.Session.Rules.{
  attach_env-Keeps, finish_env-Keeps, session_call-Keeps, extern_call-Keeps,
}
use fap2_srv.Session.{
  env_key, finish_env, add_context, attach_env, build_env, create_env, call, get_env, get_id,
  extern_ptr,
}
use fap2_srv.Handler.Rules.{handle_message-Keeps}
use fap2_srv.Handler.{reply, handle_message}

-- No session is made, none changes its socket, and no environment that is there and no context is
-- replaced or removed.
pub record Lasting {W : Type 0} (s t : Server W) : Type 0 where
  pub count : t.count ≡ s.count
  pub sock : (b : ℕ) → (t.sessions b).sock ≡ (s.sessions b).sock
  pub env : (b e : ℕ) → (s.sessions b).env ≡ some e → (t.sessions b).env ≡ some e
  pub ctx :
      (b : ℕ) (k : Text) (p : Option Iface)
      → at k (s.sessions b).ctx ≡ some p
      → at k (t.sessions b).ctx ≡ some p

pub Lasting-refl : {W : Type 0} (s : Server W) → Lasting s s
Lasting-refl s = record { count = refl; sock = λ b. refl; env = λ b e h. h; ctx = λ b k p h. h }

-- The same sessions.
pub Lasting-same :
    {W : Type 0} (s t : Server W) → t.count ≡ s.count → t.sessions ≡ s.sessions → Lasting s t
Lasting-same s t count same = record {
  count = count;
  sock = λ b. rw same refl;
  env = λ b e h. rw same h;
  ctx = λ b k p h. rw same h;
}

Lasting-IsPreorder : {W : Type 0} → IsPreorder {W = W} Lasting
Lasting-IsPreorder = record {
  idle = Lasting-refl;
  join = λ f g. record {
    count = g.count ∙ f.count;
    sock = λ b. g.sock b ∙ f.sock b;
    env = λ b e h. g.env b e (f.env b e h);
    ctx = λ b k p h. g.ctx b k p (f.ctx b k p h);
  };
}

module _ {W : Type 0} where
  lift-Lasting : (A : Type 0) (m : W → Outcome A × W) → Keeps {W = W} Lasting (lift m)
  unfolding lift
  lift-Lasting A m = record { at = λ s. Lasting-same s _ refl refl }

  modify-Lasting :
      (a : ℕ) (f : Session → Session)
      → ((c : Session) → (f c).env ≡ c.env)
      → ((c : Session) → (f c).sock ≡ c.sock)
      → ((c : Session) → (f c).ctx ≡ c.ctx)
      → Keeps {W = W} Lasting (modify a f)
  unfolding modify
  modify-Lasting a f env sock ctx = record {
    at = λ s. record {
      count = refl;
      sock = λ b. ground (arith, sock (s.sessions a));
      env = λ b e h. ground (arith, env (s.sessions a));
      ctx = λ b k p h. ground (arith, ctx (s.sessions a));
    };
  }

  set_ctx-Lasting :
      (a : ℕ) (handle : Text) (ptr : Option Iface) (s : Server W)
      → has handle (s.sessions a).ctx ≡ false
      → Lasting s (modify a (λ c. record c { ctx = insert handle ptr c.ctx }) s).1
  unfolding modify
  set_ctx-Lasting a handle ptr s new = record {
    count = refl;
    sock = λ b. ground arith;
    env = λ b e h. ground arith;
    ctx = λ b k p h. ground (arith, insert-keeps handle k ptr p (s.sessions a).ctx new);
  }

  pub add_context-Lasting :
      (a : ℕ) (handle : Text) (ptr : Option Iface)
      → Keeps {W = W} Lasting (add_context a handle ptr)
  unfolding add_context
  add_context-Lasting a handle ptr = record {
    at = λ s. elim (Bool-cases (has handle (s.sessions a).ctx)) [
      | inl old ↦ rw old (Lasting-refl s)
      | inr new ↦ rw new (set_ctx-Lasting a handle ptr s new)
    ];
  }

  attach_env-Lasting : (a : ℕ) (id : ℤ) → Keeps {W = W} Lasting (attach_env a id)
  attach_env-Lasting a id = attach_env-Keeps Lasting-IsPreorder a id λ b.
      modify-Lasting a (λ c. record c { attached = some b }) (λ c. refl) (λ c. refl) (λ c. refl)

  -- The change of `mEnv` where it was NULL.
  set_env-Lasting :
      (a : ℕ) (env : Option ℕ) (s t : Server W)
      → (s.sessions a).env ≡ none
      → t.sessions ≡ s.sessions
      → t.count ≡ s.count
      → Lasting s (modify a (λ c. record c { env = env }) t).1
  unfolding modify
  set_env-Lasting a env s t fresh same count = record {
    count = count;
    sock = λ b. rw same (ground arith);
    env = λ b e h. rw same (ground arith);
    ctx = λ b k p h. rw same (ground arith);
  }

module _ {W : Type 0} (fap : Fap W) where
  finish_env-Lasting :
      (a : ℕ) (sid : Text) (ptr : Option ℕ) → Keeps Lasting (finish_env fap a sid ptr)
  finish_env-Lasting a sid ptr =
      finish_env-Keeps Lasting-IsPreorder lift-Lasting fap a sid ptr
        λ menv. add_context-Lasting a env_key (extern_ptr menv)

  build_env-Lasting :
      (a : ℕ) (chromo sid : Text) (s : Server W)
      → (s.sessions a).env ≡ none
      → Lasting s (build_env fap a chromo sid s).1
  unfolding build_env
  build_env-Lasting a chromo sid s fresh =
      lift_cases (λ r. Lasting s r.1) (fap.new_env chromo (codes "Env~" ++ sid ++ codes ".log")) _ s
        (λ what w. Lasting-same s _ refl refl)
        (λ ptr w.
          Lasting-IsPreorder.join (set_env-Lasting a ptr s (record s { world = w }) fresh refl refl)
            ((finish_env-Lasting a sid ptr).at _))

  create_env-Lasting : (a : ℕ) (chromo : Text) → Keeps Lasting (create_env fap a chromo)
  unfolding create_env get_env
  create_env-Lasting a chromo = record {
    at = λ s. elim (Option-cases (get_env a s)) [
      | inl e ↦ rw (e, create_env) (build_env-Lasting a chromo (get_id a s) s e)
      | inr (env, e) ↦ rw (e, create_env) (Lasting-IsPreorder.idle s)
    ];
  }

  call-Lasting : (i : Iface) (spec : Text) → Keeps Lasting (call fap i spec)
  unfolding call
  call-Lasting (session a) spec =
      session_call-Keeps Lasting-IsPreorder lift-Lasting fap a spec (create_env-Lasting a)
        (attach_env-Lasting a)
  call-Lasting (extern r) spec = extern_call-Keeps Lasting-IsPreorder lift-Lasting fap r spec

  reply-Lasting : (a : ℕ) (msg args : Text) → Keeps {W = W} Lasting (reply a msg args)
  unfolding reply
  reply-Lasting a msg args = record { at = λ s. Lasting-same s _ refl refl }

  -- What a message leaves as it is, in whichever session.
  pub handle_message-Lasting : (a : ℕ) (msg : Text) → Keeps Lasting (handle_message fap a msg)
  handle_message-Lasting =
      handle_message-Keeps Lasting-IsPreorder fap reply-Lasting add_context-Lasting call-Lasting
