-- ===== src/Threads/Conversation.antt =====
-- The messages that the threads of a process take up in a run, and the packets that it sends.
use fap2_srv.Prelude.{
  ℕ, Text, Option-cases, none, some, inl, inr, List, [], ◌∷◌, ◌++◌, ◌==◌, Bool-cases, if◌then◌else◌,
  ◌≡◌, refl, sym, ap, subst, ◌∙◌, append-nil, append_assoc,
}
use fap2_srv.Requests.{res_ok, res_error}
use fap2_srv.Fap.{Fap, Outcome, ok, threw}
use fap2_srv.Server.{session, Server}
use fap2_srv.Session.{provider_key}
use fap2_srv.Session.Frame.{add_context-Frame}
use fap2_srv.Handler.Answers.{
  packet, Granted, Refused, Answered, success, failure, crash, handle_message-Answered,
}
use fap2_srv.Registry.{register, unregister}
use fap2_srv.Threads.{
  Event, received, closed, failed, read_message, close_sock, again, turn, settle, System, accept,
  Step, accepts, built, starts, goes_on, ends, Reach, here, next,
}
use fap2_srv.Threads.Building.{ended-left}
use fap2_srv.Threads.Invariant.{settle-again}

-- A message that the thread of a session takes up, and the state that it finds.
pub record Handling (W : Type 0) : Type 0 where
  pub who : ℕ
  pub message : Text
  pub state : Server W

-- The socket that it came from.
abbrev pub origin : {W : Type 0} → Handling W → ℕ
origin h = (h.state.sessions h.who).sock

-- The message of a round of the loop, if it is one.
abbrev pub taken : {W : Type 0} → ℕ → Server W → Event → List (Handling W)
taken a s (received bytes) = elim (read_message bytes) [
  | none ↦ []
  | some message ↦ record { who = a; message = message; state = s } ∷ []
]
taken a s closed = []
taken a s failed = []

module _ {A : Type 0} (socket : A → ℕ) (k : ℕ) where
  -- The entries of one socket.
  unfoldable pub only : List A → List A
  only [] = []
  only (x ∷ xs) = if socket x == k then x ∷ only xs else only xs

module _ {W : Type 0} (fap : Fap W) where
  -- The packets that answer a message: `O` and what its call gave, or `E` and what went wrong.
  pub data Reply (h : Handling W) : ℕ × Text → Type 0 where
    granted :
        (args : Text)
        → Granted fap h.who h.message h.state args
        → Reply h (origin h, packet res_ok args)
    refused :
        (args : Text)
        → Refused fap h.who h.message h.state args
        → Reply h (origin h, packet res_error args)

  -- One packet for each message, in the same order.
  pub data Replies : List (Handling W) → List (ℕ × Text) → Type 0 where
    silent : Replies [] []
    replied :
        {h : Handling W} {p : ℕ × Text} {hs : List (Handling W)} {ps : List (ℕ × Text)}
        → Reply h p
        → Replies hs ps
        → Replies (h ∷ hs) (p ∷ ps)

  -- The messages that were taken up in a step, and in a run.
  unfoldable pub step_log : {y z : System W} → Step fap y z → List (Handling W)
  step_log (accepts sock main) = []
  step_log (built a t main e) = []
  step_log (starts a new) = []
  step_log {y} (goes_on a i event t run e) = taken a y.server event
  step_log (ends a i event t run e) = []

  unfoldable pub log : {y z : System W} → Reach fap y z → List (Handling W)
  log here = []
  log (next r st) = log r ++ step_log st

  Replies-append :
      {hs gs : List (Handling W)} {ps qs : List (ℕ × Text)}
      → Replies hs ps
      → Replies gs qs
      → Replies (hs ++ gs) (ps ++ qs)
  Replies-append silent r = r
  Replies-append (replied p rest) r = replied p (Replies-append rest r)

  only-Replies :
      (k : ℕ) {hs : List (Handling W)} {ps : List (ℕ × Text)}
      → Replies hs ps
      → Replies (only origin k hs) (only (λ p. p.0) k ps)
  unfolding only
  only-Replies k silent = silent
  only-Replies k (replied {h} (granted args g) rest) = elim (Bool-cases (origin h == k)) [
    | inl same ↦ rw same (replied (granted args g) (only-Replies k rest))
    | inr other ↦ rw other (only-Replies k rest)
  ]
  only-Replies k (replied {h} (refused args g) rest) = elim (Bool-cases (origin h == k)) [
    | inl same ↦ rw same (replied (refused args g) (only-Replies k rest))
    | inr other ↦ rw other (only-Replies k rest)
  ]

  -- What was sent behind a state are replies to messages.
  abbrev pub Said : Server W → Server W → List (Handling W) → Type 0
  Said s t hs = (ps : List (ℕ × Text)) × (t.sent ≡ s.sent ++ ps) × Replies hs ps

  quiet : (s t : Server W) → t.sent ≡ s.sent → Said s t []
  quiet s t e = ([], e ∙ sym (append-nil s.sent), silent)

  Answered-Said :
      (a : ℕ) (message : Text) (s : Server W) (t : Server W) (r : Outcome (Unit {0}) × Server W)
      → Answered fap a message s r
      → settle r ≡ again t
      → Said s r.1 (record { who = a; message = message; state = s } ∷ [])
  Answered-Said a message s t r (success args g fine e) run =
      (_, e, replied (granted args g) silent)
  Answered-Said a message s t r (failure args g fine e) run =
      (_, e, replied (refused args g) silent)
  Answered-Said a message s t (ok done, v) (crash end ctx sp found hit raises e) run = absurd (cc)
  Answered-Said a message s t (threw what, v) (crash end ctx sp found hit raises e) run =
      absurd (cc)

  pub again-Said :
      (a : ℕ) (event : Event) (s t : Server W)
      → turn fap a event s ≡ again t
      → Said s t (taken a s event)
  unfolding turn
  again-Said a (received bytes) s t e = elim (Option-cases (read_message bytes)) [
    | inl miss ↦ absurd (cc (rw (miss, turn) at e))
    | inr (message, hit) ↦
        rw (hit, taken)
          (subst
            (λ (u : Server W). Said s u (record { who = a; message = message; state = s } ∷ []))
            (settle-again _ t (rw (hit, turn) at e))
            (Answered-Said a message s t _ (handle_message-Answered fap a message s)
              (rw (hit, turn) at e)))
  ]
  again-Said a closed s t e = elim (Option-cases (unregister a (close_sock a s))) [
    | inl miss ↦ absurd (cc (rw (miss, turn) at e))
    | inr (u, hit) ↦ absurd (cc (rw (hit, turn) at e))
  ]
  again-Said a failed s t e = (let f : t ≡ s = cc in quiet s t (ap (λ (u : Server W). u.sent) f))

  pub Step-Said : {y z : System W} (st : Step fap y z) → Said y.server z.server (step_log st)
  unfolding accept register close_sock step_log
  Step-Said {y} (accepts sock main) = quiet y.server (accept sock y).server refl
  Step-Said {y} (built a t main e) = quiet y.server t (
      ap (λ (r : Outcome (Unit {0}) × Server W). r.1.sent) (sym e)
      ∙ ((add_context-Frame a a provider_key (some (session a))).at y.server).sent)
  Step-Said {y} (starts a new) = quiet y.server (register a y.server) refl
  Step-Said {y} (goes_on a i event t run e) = again-Said a event y.server t e
  Step-Said {y} (ends a i event t run e) =
      let (xs, f) = ended-left fap a event y.server t e in
      quiet y.server t (ap (λ (v : Server W). v.sent) (sym f))

  Reach-Said : {y z : System W} (r : Reach fap y z) → Said y.server z.server (log r)
  unfolding log
  Reach-Said {y} here = quiet y.server y.server refl
  Reach-Said {y} (next r st) =
      let (ps, e, said) = Reach-Said r in
      let (qs, f, more) = Step-Said st in
      (
        ps ++ qs,
        f ∙ ap (λ v. v ++ qs) e ∙ append_assoc y.server.sent ps qs,
        Replies-append said more,
      )

  -- In every run of the process, from whatever state, with the steps of its threads in any order,
  -- what it sends is exactly one packet for each message that a thread has handled, in their
  -- order, each on the socket of its session and with what the call of its message gave, or what
  -- was wrong with it, in the state that it met; and so what is sent on one socket is the replies
  -- to the messages that came in on it, in their order.
  pub Reach-Replies :
      {y z : System W} (r : Reach fap y z)
      → (ps : List (ℕ × Text)) × (z.server.sent ≡ y.server.sent ++ ps)
        × Replies (log r) ps
        × ((k : ℕ) → Replies (only origin k (log r)) (only (λ p. p.0) k ps))
  Reach-Replies r = let (ps, e, said) = Reach-Said r in (ps, e, said, λ k. only-Replies k said)
