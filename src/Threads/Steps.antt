-- ===== src/Threads/Steps.antt =====
-- The invariant along the steps of the system, and what it gives.
use fap2_srv.Prelude.{
  ℕ, none, some, ◌++◌, ◌∷◌, [], get_elem?, erase_at, ◌≡◌, refl, ap, subst, ◌∙◌, arith, Option-cases,
  inl, inr, text_key,
}
use fap2_srv.Fap.{Fap, Outcome, ok}
use fap2_srv.Server.{session, Server}
use fap2_srv.Session.{provider_key, add_context, context_owner}
use fap2_srv.Session.Frame.{Frame-IsPreorder, add_context-Frame}
use fap2_srv.Session.Owned.{Owned, add_context-Preserves}
use fap2_srv.Handler.Isolation.{Frame-Touches, Isolated, handle_message-Isolated}
use fap2_srv.Registry.{unregister}
use fap2_srv.Registry.Counts.{find_index-some, count_id-get_elem?}
use fap2_srv.Threads.{
  Event, received, closed, failed, read_message, again, ended, turn, close_sock, System, Step,
  accepts, built, starts, goes_on, ends, Reach, here, next, boot,
}
use fap2_srv.Threads.Invariant.{
  Inv, boot-Inv, accept-Inv, start-Inv, keep-Inv, leave-Inv, settle-again, settle-ended,
}

module _ {W : Type 0} (fap : Fap W) where
  Isolated-refl : (a : ℕ) (s : Server W) → Owned s → Isolated a (context_owner s.sessions a) s s
  Isolated-refl a s h = record {
    owned = h;
    touches = Frame-Touches ((Frame-IsPreorder a (context_owner s.sessions a)).idle s);
  }

  -- What a round after which the loop goes on has changed.
  pub again-Isolated :
      (s : Server W) (a : ℕ) (event : Event) (t : Server W)
      → Owned s
      → turn fap a event s ≡ again t
      → Isolated a (context_owner s.sessions a) s t
  unfolding turn
  again-Isolated s a (received bytes) t h e = elim (Option-cases (read_message bytes)) [
    | inl miss ↦ absurd (cc (rw (miss, turn) at e))
    | inr (message, hit) ↦
        subst (Isolated a (context_owner s.sessions a) s) (settle-again _ t (rw (hit, turn) at e))
          (handle_message-Isolated fap a message s h)
  ]
  again-Isolated s a closed t h e = elim (Option-cases (unregister a (close_sock a s))) [
    | inl miss ↦ absurd (cc (rw (miss, turn) at e))
    | inr (u, hit) ↦ absurd (cc (rw (hit, turn) at e))
  ]
  again-Isolated s a failed t h e =
      subst (Isolated a (context_owner s.sessions a) s) (cc) (Isolated-refl a s h)

  again-Inv :
      (y : System W) (a : ℕ) (event : Event) (t : Server W)
      → Inv y
      → turn fap a event y.server ≡ again t
      → Inv (record y { server = t })
  again-Inv y a event t v e =
      let h = again-Isolated y.server a event t v.owned e in
      keep-Inv y t y.building a (context_owner y.server.sessions a) v h.owned h.touches

  -- The state behind the close of the session's socket.
  abbrev hung_up : System W → ℕ → System W
  hung_up y a = record y { server = close_sock a y.server }

  hung_up-Inv : (y : System W) (a : ℕ) → Inv y → Inv (hung_up y a)
  unfolding close_sock
  hung_up-Inv y a v = record {
    owned = record { self = v.owned.self };
    fresh = v.fresh;
    listed = v.listed;
    known = v.known;
    counts = v.counts;
    size = v.size;
  }

  ended-Inv :
      (y : System W) (a i : ℕ) (event : Event) (t : Server W)
      → Inv y
      → get_elem? y.running i ≡ some a
      → turn fap a event y.server ≡ ended t
      → Inv (record y { server = t; running = erase_at i y.running })
  unfolding turn
  ended-Inv y a i (received bytes) t v run e = elim (Option-cases (read_message bytes)) [
    | inl miss ↦ absurd (cc (rw (miss, turn) at e))
    | inr (message, hit) ↦ absurd (settle-ended _ t (rw (hit, turn) at e))
  ]
  ended-Inv y a i closed t v run e = elim (Option-cases (unregister a (close_sock a y.server))) [
    | inl miss ↦ absurd (cc (rw (miss, turn) at e))
    | inr (u, hit) ↦
        leave-Inv (hung_up y a) a i t (hung_up-Inv y a v) run (hit ∙ cc (rw (hit, turn) at e))
  ]
  ended-Inv y a i failed t v run e = absurd (cc)

  built-Inv :
      (y : System W) (a : ℕ) (t : Server W)
      → Inv y
      → add_context a provider_key (some (session a)) y.server ≡ (ok tt, t)
      → Inv (record y { server = t; building = none })
  built-Inv y a t v e =
      let same = ap (λ (r : Outcome (Unit {0}) × Server W). r.1) e in
      subst (λ (u : Server W). Inv (record y { server = u; building = none })) same
        (keep-Inv y _ none a a v
          ((add_context-Preserves a provider_key (some (session a)) refl).at y.server v.owned)
          (Frame-Touches ((add_context-Frame a a provider_key (some (session a))).at y.server)))

  pub Step-Inv : {y z : System W} → Step fap y z → Inv y → Inv z
  Step-Inv {y} (accepts sock idle) v = accept-Inv sock y v
  Step-Inv {y} (built a t main e) v = built-Inv y a t v e
  Step-Inv {y} (starts a new) v = start-Inv a y new v
  Step-Inv {y} (goes_on a i event t run e) v = again-Inv y a event t v e
  Step-Inv {y} (ends a i event t run e) v = ended-Inv y a i event t v run e

  -- In every state that the process can reach, the list of clients and the running threads have the
  -- same size and hold each id equally often, all these sessions exist and have registered, and no
  -- context map points to another session than its own.
  pub Reach-Inv : {w : W} {y : System W} → Reach fap (boot w) y → Inv y
  Reach-Inv {w} here = boot-Inv w
  Reach-Inv (next r st) = Step-Inv st (Reach-Inv r)

  unregister-some :
      (y : System W) (a i : ℕ)
      → Inv y
      → get_elem? y.running i ≡ some a
      → (t : Server W) × (unregister a (close_sock a y.server) ≡ some t)
        × (t.closed_socks ≡ y.server.closed_socks ++ (y.server.sessions a).sock ∷ [])
  unfolding unregister close_sock
  unregister-some y a i v run =
      let (j, found) = find_index-some y.server.sessions (y.server.sessions a).id y.server.clients (
        omega (
          arith,
          v.counts (y.server.sessions a).id,
          count_id-get_elem? y.server.sessions a i y.running run,
        )) in
      (record (close_sock a y.server) { clients = erase_at j y.server.clients }, rw found, refl)

  -- Whenever a running session disconnects, its socket is closed and its index is found, so that
  -- its thread ends: `sClients[-1]` is never read.
  pub turn_closed-ended :
      {w : W} {y : System W} (a i : ℕ)
      → Reach fap (boot w) y
      → get_elem? y.running i ≡ some a
      → (t : Server W) × (turn fap a closed y.server ≡ ended t)
        × (t.closed_socks ≡ y.server.closed_socks ++ (y.server.sessions a).sock ∷ [])
  unfolding turn
  turn_closed-ended {y = y} a i r run =
      let (t, e, c) = unregister-some y a i (Reach-Inv r) run in (t, rw (e, turn), c)
