-- ===== src/Threads/Building.antt =====
-- The constructor of a session, whose thread runs before the constructor has added "EnvProvider".
use fap2_srv.Prelude.{
  ℕ, zero, suc, ◌==◌, Text, at, has, erase_at, find_first_of, text_key, Option, List, none, some,
  Bool-cases, Option-cases, inl, inr, [], ◌≡◌, ◌≢◌, refl, sym, ap, subst, ◌∙◌, arith,
}
use fap2_srv.Requests.{req_separator}
use fap2_srv.Fap.{Fap, ok}
use fap2_srv.Server.{session, Session, Server}
use fap2_srv.Session.{provider_key, add_context, get_context, context_owner}
use fap2_srv.Session.Owned.{Owned}
use fap2_srv.Handler.{context_id, reply, dispatch, with_end, handle_message}
use fap2_srv.Handler.Isolation.{handle_message-Isolated}
use fap2_srv.Registry.{numbered, set_name, register, unregister, find_index}
use fap2_srv.Threads.{
  Event, received, closed, failed, read_message, close_sock, again, ended, turn, System, accept,
  accepts, built, starts, goes_on, ends, Reach, here, next, boot,
}
use fap2_srv.Threads.Invariant.{settle-again, settle-ended}
use fap2_srv.Threads.Steps.{Reach-Inv}

-- A session with no context that is attached to no other.
pub record IsBare {W : Type 0} (s : Server W) (a : ℕ) : Type 0 where
  pub empty : (s.sessions a).ctx ≡ []
  pub alone : (s.sessions a).attached ≡ none

module _ {W : Type 0} (fap : Fap W) where
  owner_alone : (heap : ℕ → Session) (a : ℕ) → (heap a).attached ≡ none → context_owner heap a ≡ a
  unfolding context_owner
  owner_alone heap a e = rw (e, context_owner)

  -- A message to a session that finds no context changes no session.
  with_end-sessions :
      (b : ℕ) (msg : Text) (s : Server W) (end : Option ℕ)
      → ((k : Text) → get_context b k s ≡ none)
      → (with_end fap b msg end s).1.sessions ≡ s.sessions
  unfolding with_end dispatch reply
  with_end-sessions b msg s none lost = rw (lost (context_id msg none), dispatch)
  with_end-sessions b msg s (some zero) lost = refl
  with_end-sessions b msg s (some (suc n)) lost =
      rw (lost (context_id msg (some (suc n))), dispatch)

  handle_message-sessions :
      (b : ℕ) (msg : Text) (s : Server W)
      → ((k : Text) → get_context b k s ≡ none)
      → (handle_message fap b msg s).1.sessions ≡ s.sessions
  unfolding handle_message
  handle_message-sessions b msg s lost =
      with_end-sessions b msg s (find_first_of req_separator msg 0) lost

  lost_context :
      (b a : ℕ) (s : Server W)
      → IsBare s a
      → context_owner s.sessions b ≡ a
      → (k : Text) → get_context b k s ≡ none
  unfolding get_context at
  lost_context b a s bare e k = rw (e, bare.empty)

  IsBare-same : (a : ℕ) (s t : Server W) → t.sessions a ≡ s.sessions a → IsBare s a → IsBare t a
  IsBare-same a s t e bare = record {
    empty = ap (λ (c : Session). c.ctx) e ∙ bare.empty;
    alone = ap (λ (c : Session). c.attached) e ∙ bare.alone;
  }

  -- Messages, whichever session they are for, leave a bare session bare.
  handle_message-IsBare :
      (b a : ℕ) (msg : Text) (s : Server W)
      → Owned s
      → IsBare s a
      → IsBare (handle_message fap b msg s).1 a
  handle_message-IsBare b a msg s h bare = elim (Bool-cases (context_owner s.sessions b == a)) [
    | inl own ↦
        IsBare-same a s _
          (ap (λ (f : ℕ → Session). f a)
            (handle_message-sessions b msg s (lost_context b a s bare (ground (arith, own)))))
          bare
    | inr other ↦
        let apart : a ≢ context_owner s.sessions b = λ e. absurd (ground (arith, other)) in
        let apart' : a ≢ b = λ e. apart (
          sym (
            ap (λ (c : ℕ). context_owner s.sessions c) (sym e)
            ∙ owner_alone s.sessions a bare.alone)) in
        IsBare-same a s _ ((handle_message-Isolated fap b msg s h).touches.other a apart' apart)
          bare
  ]

  again-IsBare :
      (b a : ℕ) (event : Event) (s t : Server W)
      → Owned s
      → turn fap b event s ≡ again t
      → IsBare s a
      → IsBare t a
  unfolding turn
  again-IsBare b a (received bytes) s t h e bare = elim (Option-cases (read_message bytes)) [
    | inl miss ↦ absurd (cc (rw (miss, turn) at e))
    | inr (message, hit) ↦
        subst (λ (u : Server W). IsBare u a) (settle-again _ t (rw (hit, turn) at e))
          (handle_message-IsBare b a message s h bare)
  ]
  again-IsBare b a closed s t h e bare = elim (Option-cases (unregister b (close_sock b s))) [
    | inl miss ↦ absurd (cc (rw (miss, turn) at e))
    | inr (u, hit) ↦ absurd (cc (rw (hit, turn) at e))
  ]
  again-IsBare b a failed s t h e bare = subst (λ (u : Server W). IsBare u a) (cc) bare

  unregister-left :
      (b : ℕ) (s u : Server W)
      → unregister b s ≡ some u
      → (xs : List ℕ) × (record s { clients = xs } ≡ u)
  unfolding unregister
  unregister-left b s u h =
      elim (Option-cases (find_index s.sessions (s.sessions b).id s.clients)) [
        | inl e ↦ absurd (cc (rw e at h))
        | inr (i, e) ↦ (erase_at i s.clients, cc (rw e at h))
      ]

  -- The end of a thread closes the socket and changes the list of clients.
  pub ended-left :
      (b : ℕ) (event : Event) (s t : Server W)
      → turn fap b event s ≡ ended t
      → (xs : List ℕ) × (record (close_sock b s) { clients = xs } ≡ t)
  unfolding turn
  ended-left b (received bytes) s t e = elim (Option-cases (read_message bytes)) [
    | inl miss ↦ absurd (cc (rw (miss, turn) at e))
    | inr (message, hit) ↦ absurd (settle-ended _ t (rw (hit, turn) at e))
  ]
  ended-left b closed s t e = elim (Option-cases (unregister b (close_sock b s))) [
    | inl miss ↦ absurd (cc (rw (miss, turn) at e))
    | inr (u, hit) ↦ unregister-left b (close_sock b s) t (hit ∙ cc (rw (hit, turn) at e))
  ]
  ended-left b failed s t e = absurd (cc)

  ended-sessions :
      (b : ℕ) (event : Event) (s t : Server W)
      → turn fap b event s ≡ ended t
      → t.sessions ≡ s.sessions
  unfolding close_sock
  ended-sessions b event s t e =
      let (xs, f) = ended-left b event s t e in ap (λ (v : Server W). v.sessions) (sym f)

  register-IsBare : (b a : ℕ) (s : Server W) → IsBare s a → IsBare (register b s) a
  unfolding register numbered set_name
  register-IsBare b a s bare = record {
    empty = ground (arith, bare.empty);
    alone = ground (arith, bare.alone);
  }

  accept-IsBare :
      (sock a : ℕ) (y : System W)
      → (accept sock y).building ≡ some a
      → IsBare (accept sock y).server a
  unfolding accept
  accept-IsBare sock a y e =
      let f : y.server.count ≡ a = cc in
      record { empty = ground (arith, f); alone = ground (arith, f) }

  -- The session whose constructor is not done is bare.
  pub Reach-IsBare :
      {w : W} {y : System W} (a : ℕ)
      → Reach fap (boot w) y
      → y.building ≡ some a
      → IsBare y.server a
  Reach-IsBare a here e = absurd (cc)
  Reach-IsBare a (next {u} r (accepts sock idle)) e = accept-IsBare sock a u e
  Reach-IsBare a (next r (built b t main f)) e = absurd (cc)
  Reach-IsBare a (next {u} r (starts b new)) e = register-IsBare b a u.server (Reach-IsBare a r e)
  Reach-IsBare a (next {u} r (goes_on b i event t run f)) e =
      again-IsBare b a event u.server t (Reach-Inv fap r).owned f (Reach-IsBare a r e)
  Reach-IsBare a (next {u} r (ends b i event t run f)) e =
      IsBare-same a u.server t (ap (λ (g : ℕ → Session). g a) (ended-sessions b event u.server t f))
        (Reach-IsBare a r e)

  -- Whenever the constructor of a session comes to AddContext("EnvProvider"), whatever the thread of
  -- this session and the others have done since it was created, AddContext succeeds.
  pub built-ok :
      {w : W} {y : System W} (a : ℕ)
      → Reach fap (boot w) y
      → y.building ≡ some a
      → (add_context a provider_key (some (session a)) y.server).0 ≡ ok tt
  unfolding add_context has
  built-ok a r e = rw ((Reach-IsBare a r e).empty)
