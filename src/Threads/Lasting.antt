-- ===== src/Threads/Lasting.antt =====
-- What the steps of the process leave of the sessions that exist.
use fap2_srv.Prelude.{
  ℕ, ◌<◌, ◌≤◌, Text, Option-cases, some, Option, inl, inr, at, text_key, ◌≡◌, refl, ap, subst, ◌∙◌,
  arith,
}
use fap2_srv.Fap.{Fap, Outcome}
use fap2_srv.Server.{Iface, session, Session, Server}
use fap2_srv.Session.{provider_key}
use fap2_srv.Session.Lasting.{
  Lasting, Lasting-refl, Lasting-same, add_context-Lasting, handle_message-Lasting,
}
use fap2_srv.Registry.{numbered, set_name, register, unregister}
use fap2_srv.Threads.{
  Event, received, closed, failed, read_message, close_sock, again, turn, System, accept, Step,
  accepts, built, starts, goes_on, ends, Reach, here, next,
}
use fap2_srv.Threads.Building.{ended-left}
use fap2_srv.Threads.Invariant.{settle-again}

-- A session with the same socket, an environment and contexts that were there, and maybe more.
pub record Extends (c d : Session) : Type 0 where
  pub sock : d.sock ≡ c.sock
  pub env : (e : ℕ) → c.env ≡ some e → d.env ≡ some e
  pub ctx : (k : Text) (p : Option Iface) → at k c.ctx ≡ some p → at k d.ctx ≡ some p

-- No session is given up, and those that exist keep their socket, their environment and the
-- contexts that they have.
record Remains {W : Type 0} (s t : Server W) : Type 0 where
  count : s.count ≤ t.count
  sock : (b : ℕ) → b < s.count → (t.sessions b).sock ≡ (s.sessions b).sock
  env : (b e : ℕ) → b < s.count → (s.sessions b).env ≡ some e → (t.sessions b).env ≡ some e
  ctx :
      (b : ℕ) (k : Text) (p : Option Iface)
      → b < s.count
      → at k (s.sessions b).ctx ≡ some p
      → at k (t.sessions b).ctx ≡ some p

module _ {W : Type 0} where
  Lasting-Remains : (s t : Server W) → Lasting s t → Remains s t
  Lasting-Remains s t l = record {
    count = omega (arith, l.count);
    sock = λ b h. l.sock b;
    env = λ b e h. l.env b e;
    ctx = λ b k p h. l.ctx b k p;
  }

  Remains-refl : (s : Server W) → Remains s s
  Remains-refl s = Lasting-Remains s s (Lasting-refl s)

  Remains-trans : {s t u : Server W} → Remains s t → Remains t u → Remains s u
  Remains-trans {s} {t} f g =
      let older : (b : ℕ) → b < s.count → b < t.count = λ b h. omega (arith, f.count, h) in
      record {
        count = omega (arith, f.count, g.count);
        sock = λ b h. g.sock b (older b h) ∙ f.sock b h;
        env = λ b e h old. g.env b e (older b h) (f.env b e h old);
        ctx = λ b k p h old. g.ctx b k p (older b h) (f.ctx b k p h old);
      }

  accept-Remains : (sock : ℕ) (y : System W) → Remains y.server (accept sock y).server
  unfolding accept
  accept-Remains sock y = record {
    count = omega arith;
    sock = λ b h. ground (arith, h);
    env = λ b e h old. ground (arith, h, old);
    ctx = λ b k p h old. ground (arith, h, old);
  }

  register-Remains : (a : ℕ) (s : Server W) → Remains s (register a s)
  unfolding register numbered set_name
  register-Remains a s = record {
    count = omega arith;
    sock = λ b h. ground arith;
    env = λ b e h old. ground (arith, old);
    ctx = λ b k p h old. ground (arith, old);
  }

module _ {W : Type 0} (fap : Fap W) where
  again-Lasting :
      (a : ℕ) (event : Event) (s t : Server W) → turn fap a event s ≡ again t → Lasting s t
  unfolding turn
  again-Lasting a (received bytes) s t e = elim (Option-cases (read_message bytes)) [
    | inl miss ↦ absurd (cc (rw (miss, turn) at e))
    | inr (message, hit) ↦
        subst (Lasting s) (settle-again _ t (rw (hit, turn) at e))
          ((handle_message-Lasting fap a message).at s)
  ]
  again-Lasting a closed s t e = elim (Option-cases (unregister a (close_sock a s))) [
    | inl miss ↦ absurd (cc (rw (miss, turn) at e))
    | inr (u, hit) ↦ absurd (cc (rw (hit, turn) at e))
  ]
  again-Lasting a failed s t e = subst (Lasting s) (cc) (Lasting-refl s)

  Step-Remains : {y z : System W} → Step fap y z → Remains y.server z.server
  unfolding close_sock
  Step-Remains {y} (accepts sock main) = accept-Remains sock y
  Step-Remains {y} (built a t main e) = Lasting-Remains y.server t (
      subst (Lasting y.server) (ap (λ (r : Outcome (Unit {0}) × Server W). r.1) e)
        ((add_context-Lasting a provider_key (some (session a))).at y.server))
  Step-Remains {y} (starts a new) = register-Remains a y.server
  Step-Remains {y} (goes_on a i event t run e) =
      Lasting-Remains y.server t (again-Lasting a event y.server t e)
  Step-Remains {y} (ends a i event t run e) =
      let (xs, f) = ended-left fap a event y.server t e in
      let left = record (close_sock a y.server) { clients = xs } in
      subst (Remains y.server) f
        (Lasting-Remains y.server left (Lasting-same y.server left refl refl))

  Run-Remains : {y z : System W} → Reach fap y z → Remains y.server z.server
  Run-Remains {y} here = Remains-refl y.server
  Run-Remains (next r st) = Remains-trans (Run-Remains r) (Step-Remains st)

  -- In every run of the process, from whatever state, with the steps of its threads in any order,
  -- a session that exists before exists behind it, with the same socket, with the environment that
  -- it had, if any, and with every handle of its context map leading to what it led to.
  pub Reach-Remains :
      {y z : System W} (b : ℕ)
      → Reach fap y z
      → b < y.server.count
      → (b < z.server.count) × Extends (y.server.sessions b) (z.server.sessions b)
  Reach-Remains b r h =
      let f = Run-Remains r in
      (
        omega (arith, f.count, h),
        record { sock = f.sock b h; env = λ e. f.env b e h; ctx = λ k p. f.ctx b k p h },
      )
