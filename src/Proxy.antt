-- ===== src/Proxy.antt =====
-- dmas/daaproxy.h, dmas/daaproxy.cpp, dmas/melempx.h and dmas/melempx.cpp: proxies of remote nodes,
-- and the requests that they pass on to the agent that owns the connection.
pub mod Forward
pub mod Invariant
pub mod Cache
pub mod Names
pub mod Stubs
use fap2_srv.Prelude.{
  ℕ, zero, suc, ◌+◌, ◌==◌, if◌then◌else◌, Text, codes, Map, has, at, insert, text_key, Option, none,
  some, List, [], ◌∷◌, ◌++◌, Bool, true, false, not,
}
use fap2_srv.Server.{update}
use fap2_srv.Client.{Net, Result, returned, raised, length_error, BaseClient, request_args}

-- class MelemPx with its bases DaaProxy and MElem. The manager is another proxy, or the agent.
pub record MelemPx : Type 0 where
  pub mgr : Option ℕ
  pub context : Text
  pub name : Text
  pub proxies : Map Text ℕ

-- The proxies by their addresses, and the agent's connection to the remote environment.
pub record Proxies (N : Type 0) : Type 0 where
  pub px : ℕ → MelemPx
  pub count : ℕ
  pub client : BaseClient
  pub net : N

-- How a method ends: it returns, an exception leaves it, an assertion fails, a null pointer is
-- used, or the chain of managers is longer than the fuel.
pub data Run {ℓ} (A : Type ℓ) : Type ℓ where
  done : A → Run A
  thrown : Text → Run A
  asserted null_access out_of_fuel : Run A

abbrev pub run_of {ℓ} : {A : Type ℓ} → Result A → Run A
run_of (returned a) = done a
run_of (raised what) = thrown what
run_of length_error = thrown (codes "length_error")

abbrev pub Method : Type 0 → Type 0 → Type 0
Method N A = Proxies N → Run A × Proxies N

abbrev pub after : {N A B : Type 0} → Run A × Proxies N → (A → Method N B) → Run B × Proxies N
after (done a, s) f = f a s
after (thrown what, s) f = (thrown what, s)
after (asserted, s) f = (asserted, s)
after (null_access, s) f = (null_access, s)
after (out_of_fuel, s) f = (out_of_fuel, s)

infixl 5 ◌>>=◌
abbrev pub ◌>>=◌ : {N A B : Type 0} → Method N A → (A → Method N B) → Method N B
◌>>=◌ m f s = after (m s) f

abbrev pub pure : {N A : Type 0} → A → Method N A
pure a s = (done a, s)

-- The members that the constructor sets.
abbrev pub new_px : Option ℕ → Text → MelemPx
new_px mgr context = record { mgr = mgr; context = context; name = []; proxies = [] }

module _ {N : Type 0} (net : Net N) where
  -- ARenv::Request: the request over the agent's connection.
  unfoldable pub agent_request : Text → Text → Method N (Bool × Text)
  agent_request context req s =
      let (r, n) = request_args net s.client context req s.net in (run_of r, record s { net = n })

  -- mMgr->Request, where MelemPx::Request passes the request on to its own manager.
  unfoldable pub forward : ℕ → Option ℕ → Text → Text → Method N (Bool × Text)
  unfolding agent_request
  forward fuel none context req s = agent_request context req s
  forward zero (some p) context req s = (out_of_fuel, s)
  forward (suc fuel) (some p) context req s = forward fuel (s.px p).mgr context req s

  -- A request that the proxy makes of its manager in its own context.
  unfoldable pub ask : ℕ → Text → Method N (Bool × Text)
  unfolding forward
  ask p req s = forward s.count (s.px p).mgr (s.px p).context req s

-- DaaProxy::IsCached
unfoldable pub is_cached : {N : Type 0} → ℕ → Text → Proxies N → Bool
is_cached p context s = has context (s.px p).proxies

-- DaaProxy::RegProxy
unfoldable pub reg_proxy : {N : Type 0} → ℕ → ℕ → Method N (Unit {0})
unfolding is_cached
reg_proxy p q s = if is_cached p (s.px q).context s then (asserted, s) else (
  done tt,
  record s {
    px = update s.px p (record (s.px p) { proxies = insert (s.px q).context q (s.px p).proxies });
  },
)

-- DaaProxy::GetProxy
unfoldable pub get_proxy : {N : Type 0} → ℕ → Text → Method N ℕ
get_proxy p context s = elim (at context (s.px p).proxies) [
  | none ↦ (asserted, s)
  | some q ↦ (done q, s)
]

-- new MelemPx
unfoldable pub create : {N : Type 0} → Option ℕ → Text → Method N ℕ
create mgr context s =
    (done s.count, record s { px = update s.px s.count (new_px mgr context); count = suc s.count })

-- The branches of MelemPx::GetNode on the reply.
unfoldable pub node_for : {N : Type 0} → ℕ → Bool × Text → Method N (Option ℕ)
unfolding is_cached reg_proxy get_proxy create
node_for p (false, resp) s = (done none, s)
node_for p (true, resp) s =
    if is_cached p resp s
    then (get_proxy p resp >>= (λ q. pure (some q))) s
    else (create (some p) resp >>= (λ q. reg_proxy p q >>= (λ _. pure (some q)))) s

module _ {N : Type 0} (net : Net N) where
  -- MelemPx::GetNode(uri)
  unfoldable pub get_node : ℕ → Text → Method N (Option ℕ)
  unfolding ask node_for
  get_node p uri = ask net p (codes "GetNode,1," ++ uri) >>= node_for p

  -- MelemPx::Name, which keeps the last name that it got.
  unfoldable pub name : ℕ → Method N Text
  unfolding ask
  name p = ask net p (codes "Name") >>= (λ (res, resp) s.
      if res
      then (done resp, record s { px = update s.px p (record (s.px p) { name = resp }) })
      else (done (s.px p).name, s))

  -- MelemPx::GetCont: the text is what the request gave, whether it succeeded or not.
  unfoldable pub get_cont : ℕ → Text → Method N Text
  unfolding ask
  get_cont p cont_name = ask net p (codes "GetCont,1," ++ cont_name) >>= (λ (res, resp). pure resp)

-- MelemPx::GetParent
unfoldable pub get_parent : {N : Type 0} → ℕ → Method N (Option ℕ)
get_parent p s = (done none, s)

-- MelemPx::IsRemoved
unfoldable pub is_removed : {N : Type 0} → ℕ → Method N Bool
is_removed p s = (done false, s)
