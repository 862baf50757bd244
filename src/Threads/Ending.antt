-- ===== src/Threads/Ending.antt =====
-- The whole loop of HandleSessionClient, on what recv gives in its rounds.
use fap2_srv.Prelude.{
  ℕ, ◌+◌, Text, Option-cases, none, some, inl, inr, List, [], ◌∷◌, ◌++◌, length, length-erase_at,
  get_elem?, erase_at, ◌≡◌, ◌≢◌, refl, ap, arith,
}
use fap2_srv.Fap.{Fap, Outcome, ok, threw}
use fap2_srv.Server.{Server}
use fap2_srv.Handler.{handle_message}
use fap2_srv.Registry.{unregister}
use fap2_srv.Threads.{
  Event, received, closed, failed, read_message, close_sock, settle, Turn, again, ended, terminated,
  undefined, turn, System, Reach, next, goes_on, ends, boot,
}
use fap2_srv.Threads.Steps.{Reach-Inv, turn_closed-ended}

-- Where the loop has come to: the thread has returned, an exception left it, the behaviour is
-- undefined, or it waits for more.
pub data Stop (W : Type 0) : Type 0 where
  stopped : Server W → Stop W
  died : Text → Server W → Stop W
  lost : Stop W
  waiting : Server W → Stop W

module _ {W : Type 0} (fap : Fap W) where
  unfoldable pub session_loop : ℕ → List Event → Server W → Stop W
  unfolding turn
  session_loop a [] s = waiting s
  session_loop a (event ∷ events) s = elim (turn fap a event s) [
    | again t ↦ session_loop a events t
    | ended t ↦ stopped t
    | terminated what t ↦ died what t
    | undefined ↦ lost
  ]

  -- The state that the loop is in behind some rounds.
  abbrev pub Through : ℕ → List Event → Server W → Server W → Type 0
  Through a events s t = session_loop a events s ≡ waiting t

  -- How the loop of the thread at a place of the running ones ends: it leaves the process in a state
  -- that this can reach, without the thread and with one session less in the list of clients; or,
  -- behind some rounds, a packet came whose handling threw, or which filled the buffer.
  pub data Stopped (w : W) (y : System W) (a i : ℕ) (events : List Event) : Stop W → Type 0 where
    leaves :
        (t : Server W)
        → Reach fap (boot w) (record y { server = t; running = erase_at i y.running })
        → length t.clients + 1 ≡ length y.server.clients
        → Stopped w y a i events (stopped t)
    throws :
        (before after : List Event) (bytes message what : Text) (s t : Server W)
        → events ≡ before ++ received bytes ∷ after
        → Through a before y.server s
        → read_message bytes ≡ some message
        → handle_message fap a message s ≡ (threw what, t)
        → Stopped w y a i events (died what t)
    strays :
        (before after : List Event) (bytes : Text) (s : Server W)
        → events ≡ before ++ received bytes ∷ after
        → Through a before y.server s
        → read_message bytes ≡ none
        → Stopped w y a i events lost

  -- The last round.
  closing :
      {w : W} (y : System W) (a i : ℕ) (event : Event) (events : List Event) (t : Server W)
      → Reach fap (boot w) y
      → get_elem? y.running i ≡ some a
      → turn fap a event y.server ≡ ended t
      → Stopped w y a i events (stopped t)
  closing y a i event events t r run e =
      let z = next r (ends a i event t run e) in
      leaves t z (
        omega (
          arith,
          (Reach-Inv fap z).size,
          (Reach-Inv fap r).size,
          length-erase_at {0} a i y.running run,
        ))

  Through-cons :
      (a : ℕ) (event : Event) (before : List Event) (s t u : Server W)
      → turn fap a event s ≡ again t
      → Through a before t u
      → Through a (event ∷ before) s u
  unfolding session_loop
  Through-cons a event before s t u e h = rw (e, session_loop) h

  -- A round after which the loop goes on.
  earlier :
      {w : W} (y : System W) (a i : ℕ) (event : Event) (events : List Event) (t : Server W)
      (stop : Stop W)
      → Reach fap (boot w) y
      → Reach fap (boot w) (record y { server = t })
      → turn fap a event y.server ≡ again t
      → Stopped w (record y { server = t }) a i events stop
      → Stopped w y a i (event ∷ events) stop
  earlier y a i event events t stop r q e (leaves u z less) =
      leaves u z (omega (arith, less, (Reach-Inv fap r).size, (Reach-Inv fap q).size))
  earlier y a i event events t stop r q e (throws before after bytes message what s u split h m f) =
      throws (event ∷ before) after bytes message what s u
        (ap (λ (l : List Event). event ∷ l) split) (Through-cons a event before y.server t s e h) m
        f
  earlier y a i event events t stop r q e (strays before after bytes s split h m) =
      strays (event ∷ before) after bytes s (ap (λ (l : List Event). event ∷ l) split)
        (Through-cons a event before y.server t s e h) m

  closed_loop :
      {w : W} (y : System W) (a i : ℕ)
      → Reach fap (boot w) y
      → get_elem? y.running i ≡ some a
      → Stopped w y a i (closed ∷ []) (session_loop a (closed ∷ []) y.server)
  unfolding session_loop
  closed_loop y a i r run =
      let (t, e, c) = turn_closed-ended fap a i r run in
      rw (e, session_loop) (closing y a i closed (closed ∷ []) t r run e)

  settle-terminated :
      (r : Outcome (Unit {0}) × Server W) (what : Text) (t : Server W)
      → settle r ≡ terminated what t
      → r ≡ (threw what, t)
  settle-terminated (ok done, s) what t e = absurd (cc)
  settle-terminated (threw why, s) what t e = cc

  settle-undefined : (r : Outcome (Unit {0}) × Server W) → settle r ≢ undefined
  settle-undefined (ok done, s) e = cc
  settle-undefined (threw why, s) e = cc

  -- A round that throws is a packet whose handling throws.
  dying :
      {w : W} (y : System W) (a i : ℕ) (event : Event) (events : List Event) (what : Text)
      (t : Server W)
      → turn fap a event y.server ≡ terminated what t
      → Stopped w y a i (event ∷ events) (died what t)
  unfolding turn session_loop
  dying y a i (received bytes) events what t e = elim (Option-cases (read_message bytes)) [
    | inl miss ↦ absurd (cc (rw (miss, turn) at e))
    | inr (message, hit) ↦
        throws [] events bytes message what y.server t refl refl hit
          (settle-terminated _ what t (rw (hit, turn) at e))
  ]
  dying y a i closed events what t e = elim (Option-cases (unregister a (close_sock a y.server))) [
    | inl miss ↦ absurd (cc (rw (miss, turn) at e))
    | inr (u, hit) ↦ absurd (cc (rw (hit, turn) at e))
  ]
  dying y a i failed events what t e = absurd (cc)

  -- A round whose behaviour is undefined is a packet that fills the buffer: the index at the end of
  -- a thread is found.
  straying :
      {w : W} (y : System W) (a i : ℕ) (event : Event) (events : List Event)
      → Reach fap (boot w) y
      → get_elem? y.running i ≡ some a
      → turn fap a event y.server ≡ undefined
      → Stopped w y a i (event ∷ events) lost
  unfolding turn session_loop
  straying y a i (received bytes) events r run e = elim (Option-cases (read_message bytes)) [
    | inl miss ↦ strays [] events bytes y.server refl refl miss
    | inr (message, hit) ↦ absurd (settle-undefined _ (rw (hit, turn) at e))
  ]
  straying y a i closed events r run e =
      let (t, f, c) = turn_closed-ended fap a i r run in absurd (cc)
  straying y a i failed events r run e = absurd (cc)

  -- The rounds behind one that went on are as given.
  one_round :
      {w : W} (y : System W) (a i : ℕ) (event : Event) (events : List Event)
      → Reach fap (boot w) y
      → get_elem? y.running i ≡ some a
      → ((t : Server W)
          → Reach fap (boot w) (record y { server = t })
          → Stopped w (record y { server = t }) a i events (session_loop a events t))
      → (x : Turn W) → turn fap a event y.server ≡ x
      → Stopped w y a i (event ∷ events) (elim x [
        | again t ↦ session_loop a events t
        | ended t ↦ stopped t
        | terminated what t ↦ died what t
        | undefined ↦ lost
      ])
  one_round y a i event events r run rest (again t) e =
      let q = next r (goes_on a i event t run e) in earlier y a i event events t _ r q e (rest t q)
  one_round y a i event events r run rest (ended t) e =
      closing y a i event (event ∷ events) t r run e
  one_round y a i event events r run rest (terminated what t) e = dying y a i event events what t e
  one_round y a i event events r run rest undefined e = straying y a i event events r run e

  -- From any state that the process can reach, with no other thread in between: once the client
  -- has closed the connection, after whatever messages, the loop of its thread does not wait for
  -- more; it returns, in a state that the process can reach, without the thread and with one
  -- session less in the list of clients, or, in the state that some of the rounds lead to,
  -- HandleMessage of the next packet throws or this packet fills the buffer without a NUL; the
  -- index at the end is always found.
  pub session_loop-Stopped :
      {w : W} (y : System W) (a i : ℕ) (events : List Event)
      → Reach fap (boot w) y
      → get_elem? y.running i ≡ some a
      → Stopped w y a i (events ++ closed ∷ []) (session_loop a (events ++ closed ∷ []) y.server)
  unfolding session_loop
  session_loop-Stopped y a i [] r run = closed_loop y a i r run
  session_loop-Stopped y a i (event ∷ events) r run =
      one_round y a i event (events ++ closed ∷ []) r run
        (λ t q. session_loop-Stopped (record y { server = t }) a i events q run) _ refl
