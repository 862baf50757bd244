-- ===== src/Fap.antt =====
-- What the server uses of the fap2 library (env.h, ifu.h, guri.h), which is not in the repository:
-- the operations are parameters, over a state of their own of which nothing is known.
use fap2_srv.Prelude.{ℕ, Text, Option, List, ℤ}

-- A call that may leave by a `std::exception`, here the text of its `what()`.
pub data Outcome {ℓ} (A : Type ℓ) : Type ℓ where
  ok : A → Outcome A
  threw : Text → Outcome A

-- Objects of the library are addresses. `W` is all the state that lies behind them.
pub record Fap (W : Type 0) : Type 0 where
  -- Ifu::ParseIcSpec: the name and the arguments of a call; the signature is not looked at.
  pub parse_ic_spec : Text → Outcome (Text × List Text)
  -- MIface::Call: the interface that it returns, if any, and the text of the result.
  pub call : ℕ → Text → W → Outcome (Option ℕ × Text) × W
  -- MIface::Uid
  pub uid : ℕ → W → Text
  -- GUriBase::KIfaceSepS
  pub iface_sep : Text
  -- new Env(chromo, log, false)
  pub new_env : Text → Text → W → Outcome (Option ℕ) × W
  -- Env::SetEVar
  pub set_evar : ℕ → Text → Text → W → Outcome (Unit {0}) × W
  -- Env::AddProvider(new DaaProv(name, env))
  pub add_daa_prov : Text → ℕ → W → Outcome (Unit {0}) × W
  -- Env::ConstructSystem
  pub construct_system : ℕ → W → Outcome (Unit {0}) × W
  -- Env::GetObj(menv)
  pub get_obj : ℕ → W → Outcome (Option ℕ) × W
  -- The indeterminate value of a local `int` that nothing was read into.
  pub uninit_int : ℤ
