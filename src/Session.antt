-- ===== src/Session.antt =====
-- server/sclient.cpp: contexts, environments and the methods of a session's EnvProvider interface.
-- `a` is the address of `this`.
pub mod Attach
pub mod Envs
pub mod Shared
pub mod Lasting
pub mod Rules
pub mod Frame
pub mod Returns
pub mod Owned
pub mod Spec
pub mod Related
pub mod Masked
use fap2_srv.Prelude.{
  ℕ, ◌+◌, ◌==◌, if◌then◌else◌, Text, codes, text_eq, Map, has, at, insert, text_key, nat_key, ℤ,
  is_nat, print_int, print_signed, extract_int, Option, none, some, List, [], ◌∷◌, ◌++◌, length,
}
use fap2_srv.Fap.{Fap, Outcome, ok, threw}
use fap2_srv.Server.{
  Iface, session, extern, Session, Server, Exec, pure, throw, lift, ◌>>=◌, ◌>>◌, after, modify,
  update,
}

-- The key under which a session's environment is put into the context map.
abbrev pub env_key : Text
env_key = codes "MEnv#0"

abbrev pub provider_key : Text
provider_key = codes "EnvProvider"

-- A lookup in a context map, where a missing key and a null pointer give NULL alike.
abbrev pub pointer : Option (Option Iface) → Option Iface
pointer none = none
pointer (some p) = p

-- FindSessionClientById: the address of the first registered session with the id.
unfoldable pub find_by_id : (ℕ → Session) → ℤ → List ℕ → Option ℕ
find_by_id heap id [] = none
find_by_id heap id (a ∷ rest) = if is_nat id (heap a).id then some a else find_by_id heap id rest

-- Whose context map `GetContext` searches.
unfoldable pub context_owner : (ℕ → Session) → ℕ → ℕ
context_owner heap a = elim (heap a).attached [ none ↦ a | some b ↦ b ]

module _ {W : Type 0} where
  unfoldable pub add_context : ℕ → Text → Option Iface → Exec W (Unit {0})
  unfolding modify
  add_context a handle ptr s =
      if has handle (s.sessions a).ctx
      then (threw (codes "Context already exists"), s)
      else modify a (λ c. record c { ctx = insert handle ptr c.ctx }) s

  unfoldable pub get_context : ℕ → Text → Server W → Option Iface
  unfolding context_owner
  get_context a handle s = pointer (at handle (s.sessions (context_owner s.sessions a)).ctx)

  unfoldable pub get_env : ℕ → Server W → Option ℕ
  get_env a s = (s.sessions a).env

  unfoldable pub get_id : ℕ → Server W → Text
  get_id a s = print_int (s.sessions a).id

  unfoldable pub attach_env : ℕ → ℤ → Exec W (Unit {0})
  unfolding modify find_by_id print_signed
  attach_env a id s = elim (find_by_id s.sessions id s.clients) [
    | some b ↦ modify a (λ c. record c { attached = some b }) s
    | none ↦ (threw (codes "Session [" ++ print_signed id ++ codes "] for attaching not found"), s)
  ]

-- The check of the pointer that `new Env` gave.
abbrev pub non_null : {W : Type 0} → Option ℕ → Exec W ℕ
non_null none = throw (codes "Failed creating env")
non_null (some env) = pure env

-- The pointer of an object of the library.
abbrev pub extern_ptr : Option ℕ → Option Iface
extern_ptr none = none
extern_ptr (some r) = some (extern r)

-- The argument of a method that takes one.
abbrev pub one_arg : {W A : Type 0} → List Text → (Text → Exec W A) → Exec W A
one_arg (arg ∷ []) f = f arg
one_arg args f = throw (codes "Wrong arguments number")

abbrev pub no_arg : {W A : Type 0} → List Text → Exec W A → Exec W A
no_arg [] m = m
no_arg args m = throw (codes "Wrong arguments number")

-- The value of `id` after `ss >> id`.
abbrev pub int_or : Option ℤ → ℤ → ℤ
int_or none uninit = uninit
int_or (some n) uninit = n

module _ {W : Type 0} where
  -- The branch of `Call` on GetEnv.
  unfoldable pub call_get_env : ℕ → Exec W (Option Iface × Text)
  unfolding get_env
  call_get_env a s = elim (get_env a s) [
    | none ↦ (ok (none, []), s)
    | some env ↦ (ok (none, env_key), s)
  ]

  -- The branch of `Call` on GetId.
  unfoldable pub call_get_id : ℕ → Exec W (Option Iface × Text)
  unfolding get_id
  call_get_id a s = (ok (none, get_id a s), s)

module _ {W : Type 0} (fap : Fap W) where
  -- The part of CreateEnv behind the assignment of `mEnv`.
  unfoldable pub finish_env : ℕ → Text → Option ℕ → Exec W (Unit {0})
  unfolding lift add_context
  finish_env a sid ptr = do
    env ← non_null ptr
    lift (fap.set_evar env (codes "EnvId") sid)
    lift (fap.add_daa_prov (codes "DaaProv") env)
    lift (fap.construct_system env)
    menv ← lift (fap.get_obj env)
    add_context a env_key (extern_ptr menv)

  -- The part of CreateEnv behind the check that there is no environment yet. `mEnv` is set
  -- before the steps that may throw.
  unfoldable pub build_env : ℕ → Text → Text → Exec W (Unit {0})
  unfolding lift modify finish_env
  build_env a chromo sid = do
    ptr ← lift (fap.new_env chromo (codes "Env~" ++ sid ++ codes ".log"))
    modify a (λ c. record c { env = ptr })
    finish_env a sid ptr

  unfoldable pub create_env : ℕ → Text → Exec W (Unit {0})
  unfolding get_env get_id build_env
  create_env a chromo s = elim (get_env a s) [
    | some env ↦ (threw (codes "Env already created"), s)
    | none ↦ build_env a chromo (get_id a s) s
  ]

  -- The methods of the EnvProvider interface: the interface returned is NULL for each.
  unfoldable pub provide : ℕ → Text → List Text → Exec W (Option Iface × Text)
  unfolding call_get_env call_get_id create_env attach_env extract_int
  provide a name args =
      if text_eq name (codes "GetEnv")
      then call_get_env a
      else if text_eq name (codes "CreateEnv")
      then one_arg args (λ chromo. create_env a chromo >> pure (none, env_key))
      else if text_eq name (codes "GetId")
      then no_arg args (call_get_id a)
      else if text_eq name (codes "AttachEnv")
      then one_arg args
          (λ arg. attach_env a (int_or (extract_int arg) fap.uninit_int) >> pure (none, []))
      else throw (codes "Unknown method")

  -- SessionClient::Call
  unfoldable pub session_call : ℕ → Text → Exec W (Option Iface × Text)
  unfolding provide lift
  session_call a spec = do
    (name, args) ← lift (λ w. (fap.parse_ic_spec spec, w))
    provide a name args

  -- The virtual `Call` of an interface.
  unfoldable pub call : Iface → Text → Exec W (Option Iface × Text)
  unfolding session_call lift
  call (session b) spec = session_call b spec
  call (extern r) spec = do (ptr, res) ← lift (fap.call r spec); pure (extern_ptr ptr, res)

  -- The virtual `Uid` of an interface.
  unfoldable pub uid : Iface → Server W → Text
  uid (session b) s = fap.iface_sep ++ provider_key
  uid (extern r) s = fap.uid r s.world
