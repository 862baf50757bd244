-- ===== src/Proxy/Forward.antt =====
-- A request reaches the agent as it was made, however long the chain of managers.
use fap2_srv.Prelude.{ℕ, zero, suc, ◌<◌, ◌≤◌, Text, Option, none, some, ◌≡◌, refl, arith}
use fap2_srv.Client.{Net}
use fap2_srv.Proxy.{Proxies, agent_request, forward, ask}

-- A proxy was made by a manager that is older.
abbrev pub Older : {N : Type 0} → Proxies N → Type 0
Older s = (p q : ℕ) → p < s.count → (s.px p).mgr ≡ some q → q < p

-- The manager, if it is a proxy, is below the bound.
abbrev Under : Option ℕ → ℕ → Type 0
Under none n = Unit {0}
Under (some p) n = p < n

Under-mono : (m : Option ℕ) (k n : ℕ) → Under m k → k ≤ n → Under m n
Under-mono none k n u h = tt
Under-mono (some p) k n u h = omega arith

module _ {N : Type 0} (net : Net N) where
  manager-Under :
      (s : Proxies N) (p : ℕ)
      → Older s
      → p < s.count
      → (m : Option ℕ) → (s.px p).mgr ≡ m
      → Under m p
  manager-Under s p older h none e = tt
  manager-Under s p older h (some q) e = older p q h e

  forward-agent :
      (fuel : ℕ) (m : Option ℕ) (context req : Text) (s : Proxies N)
      → Older s
      → fuel ≤ s.count
      → Under m fuel
      → forward net fuel m context req s ≡ agent_request net context req s
  unfolding forward
  forward-agent zero none context req s older h u = refl
  forward-agent (suc fuel) none context req s older h u = refl
  forward-agent zero (some p) context req s older h u = absurd (omega arith)
  forward-agent (suc fuel) (some p) context req s older h u =
      forward-agent fuel (s.px p).mgr context req s older (omega arith) (
        Under-mono (s.px p).mgr p fuel (manager-Under s p older (omega arith) _ refl) (omega arith))

  -- What a proxy asks of its manager is what the agent sends for the proxy's context: the chain of
  -- managers ends and changes neither the context nor the request.
  pub ask-agent :
      (p : ℕ) (req : Text) (s : Proxies N)
      → Older s
      → p < s.count
      → ask net p req s ≡ agent_request net (s.px p).context req s
  unfolding ask
  ask-agent p req s older h =
      forward-agent s.count (s.px p).mgr (s.px p).context req s older (omega arith)
        (Under-mono (s.px p).mgr p s.count (manager-Under s p older h _ refl) (omega arith))
