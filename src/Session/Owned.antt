-- ===== src/Session/Owned.antt =====
-- Whom the session pointers of a context map point to.
use fap2_srv.Prelude.{
  ℕ, Map, Text, has, at, insert, at-insert, text_key, ℤ, Option, none, some, Bool-cases, inl, inr,
  false, ◌≡◌, refl, arith,
}
use fap2_srv.Fap.{Fap, Outcome}
use fap2_srv.Server.{Iface, session, extern, Session, Server, lift, modify}
use fap2_srv.Server.Keeps.{IsPreorder, Keeps}
use fap2_srv.Session.Rules.{
  attach_env-Keeps, build_env-Keeps, create_env-Keeps, session_call-Keeps, extern_call-Keeps,
}
use fap2_srv.Session.{env_key, add_context, attach_env, create_env, call, extern_ptr}

-- A session that a session's context map holds is that session itself.
pub record Owned {W : Type 0} (s : Server W) : Type 0 where
  pub self : (b c : ℕ) (k : Text) → at k (s.sessions b).ctx ≡ some (some (session c)) → c ≡ b

-- Code that keeps the invariant.
abbrev pub Preserves : {W : Type 0} → Server W → Server W → Type 0
Preserves s t = Owned s → Owned t

pub Preserves-IsPreorder : {W : Type 0} → IsPreorder {W = W} Preserves
Preserves-IsPreorder = record { idle = λ s h. h; join = λ f g h. g (f h) }

-- A pointer that may go into the context map of `a`.
abbrev pub Fits : ℕ → Option Iface → Type 0
Fits a none = Unit {0}
Fits a (some (session c)) = c ≡ a
Fits a (some (extern r)) = Unit {0}

pub extern_ptr-Fits : (a : ℕ) (r : Option ℕ) → Fits a (extern_ptr r)
extern_ptr-Fits a none = tt
extern_ptr-Fits a (some r) = tt

insert-Fits :
    (a c : ℕ) (handle k : Text) (ptr : Option Iface) (m : Map Text (Option Iface))
    → Fits a ptr
    → has handle m ≡ false
    → (at k m ≡ some (some (session c)) → c ≡ a)
    → at k (insert handle ptr m) ≡ some (some (session c))
    → c ≡ a
insert-Fits a c handle k none m f h old e = ground (arith, at-insert handle k none m h, old)
insert-Fits a c handle k (some (session d)) m f h old e =
    ground (arith, at-insert handle k (some (session d)) m h, old)
insert-Fits a c handle k (some (extern r)) m f h old e =
    ground (arith, at-insert handle k (some (extern r)) m h, old)

module _ {W : Type 0} where
  lift-Preserves : (A : Type 0) (m : W → Outcome A × W) → Keeps {W = W} Preserves (lift m)
  unfolding lift
  lift-Preserves A m = record { at = λ s h. record { self = h.self } }

  -- A change that leaves the context map alone.
  modify-Preserves :
      (a : ℕ) (f : Session → Session)
      → ((c : Session) → (f c).ctx ≡ c.ctx)
      → Keeps {W = W} Preserves (modify a f)
  unfolding modify
  modify-Preserves a f same = record {
    at = λ s h. record {
      self = λ b c k. ground (arith, same (s.sessions a), h.self b c k, h.self a c k);
    };
  }

  set_env-Preserves :
      (a : ℕ) (env : Option ℕ) → Keeps {W = W} Preserves (modify a (λ c. record c { env = env }))
  set_env-Preserves a env = modify-Preserves a _ (λ c. refl)

  set_attached-Preserves :
      (a b : ℕ) → Keeps {W = W} Preserves (modify a (λ c. record c { attached = some b }))
  set_attached-Preserves a b = modify-Preserves a _ (λ c. refl)

  set_ctx-Owned :
      (a : ℕ) (handle : Text) (ptr : Option Iface) (s : Server W)
      → Fits a ptr
      → has handle (s.sessions a).ctx ≡ false
      → Owned s
      → Owned (modify a (λ c. record c { ctx = insert handle ptr c.ctx }) s).1
  unfolding modify
  set_ctx-Owned a handle ptr s fits new h = record {
    self = λ b c k. ground (
      arith,
      insert-Fits a c handle k ptr (s.sessions a).ctx fits new (h.self a c k),
      h.self b c k,
    );
  }

  pub add_context-Preserves :
      (a : ℕ) (handle : Text) (ptr : Option Iface)
      → Fits a ptr
      → Keeps {W = W} Preserves (add_context a handle ptr)
  unfolding add_context
  add_context-Preserves a handle ptr fits = record {
    at = λ s h. elim (Bool-cases (has handle (s.sessions a).ctx)) [
      | inl old ↦ rw old h
      | inr new ↦ rw new (set_ctx-Owned a handle ptr s fits new h)
    ];
  }

  attach_env-Preserves : (a : ℕ) (id : ℤ) → Keeps {W = W} Preserves (attach_env a id)
  attach_env-Preserves a id = attach_env-Keeps Preserves-IsPreorder a id (set_attached-Preserves a)

module _ {W : Type 0} (fap : Fap W) where
  create_env-Preserves : (a : ℕ) (chromo : Text) → Keeps Preserves (create_env fap a chromo)
  create_env-Preserves a chromo =
      create_env-Keeps Preserves-IsPreorder lift-Preserves fap a chromo λ sid.
        build_env-Keeps Preserves-IsPreorder lift-Preserves fap a chromo sid (set_env-Preserves a)
          (λ ptr. add_context-Preserves a env_key (extern_ptr ptr) (extern_ptr-Fits a ptr))

  pub call-Preserves : (i : Iface) (spec : Text) → Keeps Preserves (call fap i spec)
  unfolding call
  call-Preserves (session a) spec =
      session_call-Keeps Preserves-IsPreorder lift-Preserves fap a spec (create_env-Preserves a)
        (attach_env-Preserves a)
  call-Preserves (extern r) spec = extern_call-Keeps Preserves-IsPreorder lift-Preserves fap r spec
