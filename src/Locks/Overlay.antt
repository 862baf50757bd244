-- ===== src/Locks/Overlay.antt =====
-- Code outside of the critical sections of server/sclient.cpp commutes with these.
use fap2_srv.Prelude.{ℕ, Option, none, some, List, [], ◌∷◌, ◌≡◌, refl, ap, fun_ext, arith, erase_at}
use mathlib.Core.Option
use fap2_srv.Server.{Session, Server}
use fap2_srv.Registry.{find_index, numbered, register, unregister, set_name}
use fap2_srv.Handler.{send}
use fap2_srv.Locks.{Section, entering, leaving, sending, Unlocked, change}

-- What a whole section does in one go; `none` stands for the access at index -1.
unfoldable pub section : {W : Type 0} → ℕ → Section → Server W → Option (Server W)
unfolding register unregister send
section a entering s = some (register a s)
section a leaving s = unregister a s
section a (sending text) s = some (send a text s).1

module _ {W : Type 0} (u : Unlocked W) where
  pub find_index-change :
      (s : Server W) (id : ℕ) (xs : List ℕ)
      → find_index (change u s).sessions id xs ≡ find_index s.sessions id xs
  unfolding find_index
  find_index-change s id [] = refl
  find_index-change s id (b ∷ xs) = rw (find_index-change s id xs)

  register-change : (a : ℕ) (s : Server W) → register a (change u s) ≡ change u (register a s)
  unfolding register numbered set_name
  register-change a s =
      ap (λ (f : ℕ → Session). record (register a (change u s)) { sessions = f })
        (fun_ext λ b. ground arith)

  unregister-change :
      (a : ℕ) (s : Server W) → unregister a (change u s) ≡ Option.map (change u) (unregister a s)
  unfolding unregister
  unregister-change a s =
      rw (find_index-change s (s.sessions a).id s.clients)
        (erased (find_index s.sessions (s.sessions a).id s.clients))
    where
      erased :
          (found : Option ℕ)
          → Option.map (λ i. record (change u s) { clients = erase_at i s.clients }) found
            ≡ Option.map
                (change u)
                (Option.map (λ i. record s { clients = erase_at i s.clients }) found)
      erased none = refl
      erased (some i) = refl

  pub section-change :
      (a : ℕ) (w : Section) (s : Server W)
      → section a w (change u s) ≡ Option.map (change u) (section a w s)
  unfolding section send
  section-change a entering s = ap (λ (t : Server W). some t) (register-change a s)
  section-change a leaving s = unregister-change a s
  section-change a (sending text) s = refl
