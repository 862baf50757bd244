-- ===== src/Network/Progress.antt =====
-- A client that waits, and the steps that bring it on.
use fap2_srv.Prelude.{
  ℕ, ==_self, Text, c_str, Option-cases, some, List, [], ◌∷◌, ◌++◌, All, inl, inr, true, false,
  take, drop, drop-append, length, get_elem?, ◌≡◌, ◌≢◌, ◌⊎◌, refl, ap, subst, ◌∙◌, arith,
}
use fap2_srv.Fap.{Fap}
use fap2_srv.Server.{Server}
use fap2_srv.Threads.{
  Turn, received, buffer_size, read_message, turn, again, ended, terminated, undefined,
}
use fap2_srv.Threads.Invariant.{settle-ended}
use fap2_srv.Threads.Conversation.{Handling, taken, Reply, granted, refused, again-Said}
use fap2_srv.Network.{
  Caller, Network, stream, unread, reads, takes_up, Traffic, still, moves, opened, Whole, pending,
  arrived, take_up, read_reply,
}
use fap2_srv.Network.Streams.{stream_same}
use fap2_srv.Network.Phases.{Fits, Phase, idle, under_way, answered, asked_Fits}
use fap2_srv.Network.Steady.{Fitting, one_reply, Reply-origin, stream_step}
use fap2_srv.Network.Lockstep.{Traffic-Steady}

module _ {W : Type 0} (fap : Fap W) where
  -- A message whose handling ends the process: it throws, or fills the buffer.
  pub data Fatal (a : ℕ) (bytes : Text) (s : Server W) : Type 0 where
    throws :
        (what : Text) (t : Server W)
        → turn fap a (received bytes) s ≡ terminated what t
        → Fatal a bytes s
    strays : turn fap a (received bytes) s ≡ undefined → Fatal a bytes s

  Reply-bytes : {h : Handling W} {p : ℕ × Text} → Reply fap h p → p.1 ≢ []
  unfolding c_str
  Reply-bytes (granted args g) e = absurd (cc)
  Reply-bytes (refused args g) e = absurd (cc)

  -- What a client waits for: its request is under way, or the reply is.
  abbrev Waiting : Text → Text → ℕ → Type 0
  Waiting inbound sent n = ((inbound ≢ []) × (n ≡ length sent)) ⊎ (drop n sent ≢ [])

  Phase-Waiting :
      {c : Caller} {inbound sent : Text} {n : ℕ} {hs : List (Handling W)}
      → c.waits ≡ true
      → All Fits c.asked
      → Phase fap c inbound sent n hs
      → Waiting inbound sent n
  Phase-Waiting w fits (idle sent talked) = absurd (cc)
  Phase-Waiting w fits (under_way {texts} t sent talked) =
      inl (λ e. absurd (omega (arith, asked_Fits fap texts t fits, ap length e)), refl)
  Phase-Waiting w fits (answered t sent h p m r short talked) =
      inr (rw (drop-append sent p.1) (Reply-bytes r))

  -- A reply to a session's message is there to be read.
  reply_there :
      (a n : ℕ) (t : Server W) (y : Network W)
      → let k = (y.system.server.sessions a).sock in
        y.read k ≡ length (stream k y.system.server.sent)
        → turn fap a (received (arrived y a n)) y.system.server ≡ again t
        → unread (take_up a n t y) k ≢ []
  unfolding turn
  reply_there a n t y all e =
      let k = (y.system.server.sessions a).sock in
      let said = again-Said fap a (received (arrived y a n)) y.system.server t e in
      elim (Option-cases (read_message (arrived y a n))) [
        | inl miss ↦ absurd (cc (rw (miss, turn) at e))
        | inr (message, hit) ↦
            let (ps, f, replies) = rw (hit, taken) at said in
            let (p, one, r) = one_reply fap replies in
            let g = f ∙ ap (λ (qs : List (ℕ × Text)). y.system.server.sent ++ qs) one in
            rw
              (
                stream_step fap k y.system.server t (p ∷ []) g,
                stream_same k p (rw (Reply-origin fap r) (==_self k)),
                all,
                drop-append (stream k y.system.server.sent) p.1,
              )
              (Reply-bytes r)
      ]

  received-ended :
      (a : ℕ) (bytes : Text) (s t : Server W) → turn fap a (received bytes) s ≡ ended t → ⊥
  unfolding turn
  received-ended a bytes s t e = elim (Option-cases (read_message bytes)) [
    | inl miss ↦ absurd (cc (rw (miss, turn) at e))
    | inr (message, hit) ↦ absurd (settle-ended _ t (rw (hit, turn) at e))
  ]

  turn-Fatal :
      (a : ℕ) (bytes : Text) (s : Server W) (x : Turn W)
      → turn fap a (received bytes) s ≡ x
      → ((t : Server W) × (turn fap a (received bytes) s ≡ again t)) ⊎ Fatal a bytes s
  turn-Fatal a bytes s (again t) e = inl (t, e)
  turn-Fatal a bytes s (ended t) e = absurd (received-ended a bytes s t e)
  turn-Fatal a bytes s (terminated what t) e = inr (throws what t e)
  turn-Fatal a bytes s undefined e = inr (strays e)

  some_taken : (text : Text) → text ≢ [] → take buffer_size text ≢ []
  some_taken [] there e = there refl
  some_taken (c ∷ text) there e = absurd (cc)

  -- The run in which the client has read.
  abbrev Freed : Network W → ℕ → Type 0
  Freed z k = (v : Network W) × Traffic fap z v × ((v.callers k).waits ≡ false)

  freed :
      (z y : Network W) (k : ℕ)
      → Traffic fap z y
      → (y.callers k).waits ≡ true
      → unread y k ≢ []
      → Freed z k
  freed z y k r w there = (read_reply k y, moves r (reads k w there), rw (==_self k) refl)

  waiting_here :
      {w : W} {z : Network W} (a i : ℕ) (r : Traffic fap (opened w) z)
      → Whole ((z.system.server.sessions a).sock) r
      → get_elem? z.system.running i ≡ some a
      → Fitting fap z ((z.system.server.sessions a).sock)
      → (z.callers ((z.system.server.sessions a).sock)).waits ≡ true
      → Freed z ((z.system.server.sessions a).sock)
        ⊎ Fatal a (arrived z a buffer_size) z.system.server
  waiting_here {z = z} a i r whole run fitting w =
      let k = (z.system.server.sessions a).sock in
      elim (Phase-Waiting w fitting.0 (Traffic-Steady fap r k whole fitting)) [
        | inr there ↦ inl (freed z z k still w there)
        | inl (there, n) ↦ elim (turn-Fatal a (arrived z a buffer_size) z.system.server _ refl) [
          | inr fatal ↦ inr fatal
          | inl (t, e) ↦ inl (
              freed z (take_up a buffer_size t z) k
                (moves still
                  (takes_up a i buffer_size t run (omega arith) (some_taken (pending z a) there) e))
                w (reply_there a buffer_size t z n e))
        ]
      ]

  -- Under the same conditions, a client that waits in Request for a session whose thread is in its
  -- loop can always come out of it: that thread and the client have steps that lead there, or the
  -- message that has arrived throws out of the thread or fills its buffer.
  pub waiting_served :
      {w : W} {z : Network W} (a i k : ℕ) (r : Traffic fap (opened w) z)
      → Whole k r
      → get_elem? z.system.running i ≡ some a
      → (z.system.server.sessions a).sock ≡ k
      → Fitting fap z k
      → (z.callers k).waits ≡ true
      → Freed z k ⊎ Fatal a (arrived z a buffer_size) z.system.server
  waiting_served {z = z} a i k r whole run e =
      subst
        (λ j.
          Whole j r
          → Fitting fap z j
          → (z.callers j).waits ≡ true
          → Freed z j ⊎ Fatal a (arrived z a buffer_size) z.system.server)
        e (λ all. waiting_here a i r all run) whole
