-- ===== src/Network/Steady.antt =====
-- The exchange of one client with its session, along the steps of all of them.
use fap2_srv.Prelude.{
  ℕ, ◌==◌, ==_self, nat_eq-eq, Text, Option-cases, some, List, [], ◌∷◌, ◌++◌, All, All-front,
  All-back, append-nil, Bool-cases, inl, inr, true, false, ◌≡◌, ◌≢◌, ◌⊎◌, ◌≤◌, length, refl, sym,
  ap, subst, ◌∙◌,
}
use fap2_srv.Fap.{Fap}
use fap2_srv.Server.{Server}
use fap2_srv.Threads.{System, Step, received, read_message, turn, again}
use fap2_srv.Threads.Conversation.{
  Handling, origin, only, taken, Reply, Replies, silent, replied, granted, refused, step_log,
  again-Said, Step-Said,
}
use fap2_srv.Network.{Network, stream, unread, ask, read_reply, pending, arrived, take_up}
use fap2_srv.Network.Streams.{
  only-append, only_same, only_other, stream-append, stream_same, stream_other,
}
use fap2_srv.Network.Phases.{Fits, Short, Phase, ask-Phase, take-Phase, read-Phase}

module _ {W : Type 0} (fap : Fap W) where
  -- The requests of a client fit, and so do the packets that it is sent.
  abbrev pub Fitting : Network W → ℕ → Type 0
  Fitting y k = All Fits (y.callers k).asked × All Short (only (λ p. p.0) k y.system.server.sent)

  abbrev pub Steady : Network W → ℕ → List (Handling W) → Type 0
  Steady y k hs =
      Fitting y k
      → Phase fap (y.callers k) (y.inbound k) (stream k y.system.server.sent) (y.read k) hs

  ask_here :
      (y : Network W) (k : ℕ) (text : Text) (hs : List (Handling W))
      → (y.callers k).waits ≡ false
      → Steady y k hs
      → Steady (ask k text y) k hs
  ask_here y k text hs idle s fitting =
      let (fits, short) = rw (==_self k) at fitting in
      rw (==_self k)
        (ask-Phase fap text idle (s (All-front Fits (y.callers k).asked (text ∷ []) fits, short)))

  pub ask-Steady :
      (y : Network W) (j k : ℕ) (text : Text) (hs : List (Handling W))
      → (y.callers j).waits ≡ false
      → Steady y k hs
      → Steady (ask j text y) k hs
  ask-Steady y j k text hs idle s = elim (Bool-cases (j == k)) [
    | inl same ↦
        subst (λ i. (y.callers i).waits ≡ false → Steady (ask i text y) k hs)
          (sym (nat_eq-eq j k same)) (λ w. ask_here y k text hs w s) idle
    | inr other ↦ λ fitting. rw other (s (rw other at fitting))
  ]

  read_here :
      (y : Network W) (k : ℕ) (hs : List (Handling W))
      → (y.callers k).waits ≡ true
      → unread y k ≢ []
      → Steady y k hs
      → Steady (read_reply k y) k hs
  read_here y k hs waits there s fitting =
      rw (==_self k) (read-Phase fap waits there (s (rw (==_self k) at fitting)))

  pub read-Steady :
      (y : Network W) (j k : ℕ) (hs : List (Handling W))
      → (y.callers j).waits ≡ true
      → unread y j ≢ []
      → Steady y k hs
      → Steady (read_reply j y) k hs
  read-Steady y j k hs waits there s = elim (Bool-cases (j == k)) [
    | inl same ↦
        subst (λ i. (y.callers i).waits ≡ true → unread y i ≢ [] → Steady (read_reply i y) k hs)
          (sym (nat_eq-eq j k same)) (λ w t. read_here y k hs w t s) waits there
    | inr other ↦ λ fitting. rw other (s (rw other at fitting))
  ]

  pub one_reply :
      {h : Handling W} {ps : List (ℕ × Text)}
      → Replies fap (h ∷ []) ps
      → (p : ℕ × Text) × (ps ≡ p ∷ []) × Reply fap h p
  one_reply (replied {p} r silent) = (p, refl, r)

  no_reply : {ps : List (ℕ × Text)} → Replies fap [] ps → ps ≡ []
  no_reply silent = refl

  pub Reply-origin : {h : Handling W} {p : ℕ × Text} → Reply fap h p → p.0 ≡ origin h
  Reply-origin (granted args g) = refl
  Reply-origin (refused args g) = refl

  -- What the packets of all sockets are for one of them.
  pub stream_step :
      (k : ℕ) (s t : Server W) (ps : List (ℕ × Text))
      → t.sent ≡ s.sent ++ ps
      → stream k t.sent ≡ stream k s.sent ++ stream k ps
  stream_step k s t ps e = ap (stream k) e ∙ stream-append k s.sent ps

  -- A step that sends nothing.
  pub quiet-Steady :
      (y : Network W) (x : System W) (k : ℕ) (hs : List (Handling W))
      → x.server.sent ≡ y.system.server.sent
      → Steady y k hs
      → Steady (record y { system = x }) k hs
  quiet-Steady y x k hs e s fitting = rw e (s (rw e at fitting))

  pub works-Steady :
      (y : Network W) (x : System W) (st : Step fap y.system x) (k : ℕ) (hs : List (Handling W))
      → step_log fap st ≡ []
      → Steady y k hs
      → Steady (record y { system = x }) k hs
  works-Steady y x st k hs untold s =
      let (ps, e, said) = Step-Said fap st in
      let empty = no_reply (rw untold at said) in
      quiet-Steady y x k hs
        (e
          ∙ ap (λ (qs : List (ℕ × Text)). y.system.server.sent ++ qs) empty
          ∙ append-nil y.system.server.sent)
        s

  took_here :
      (a n : ℕ) (t : Server W) (y : Network W) (h : Handling W) (p : ℕ × Text)
      (hs : List (Handling W))
      → let k = (y.system.server.sessions a).sock in
        arrived y a n ≢ []
        → length (pending y a) ≤ n
        → read_message (arrived y a n) ≡ some h.message
        → Reply fap h p
        → (p.0 == k) ≡ true
        → t.sent ≡ y.system.server.sent ++ p ∷ []
        → Steady y k hs
        → Steady (take_up a n t y) k (hs ++ h ∷ [])
  took_here a n t y h p hs there whole m r same e s fitting =
      let k = (y.system.server.sessions a).sock in
      let sent = y.system.server.sent in
      let short =
        rw (e, only-append (λ p. p.0) k sent (p ∷ []), only_same (λ p. p.0) k p same) at
          fitting.1 in
      let earlier = only (λ p. p.0) k sent in
      rw (==_self k, stream_step k y.system.server t (p ∷ []) e, stream_same k p same)
        (take-Phase fap n h p there whole m r (All-back Short earlier (p ∷ []) short).0
          (s (fitting.0, All-front Short earlier (p ∷ []) short)))

  took_elsewhere :
      (a n k : ℕ) (t : Server W) (y : Network W) (p : ℕ × Text) (hs : List (Handling W))
      → ((y.system.server.sessions a).sock == k) ≡ false
      → (p.0 == k) ≡ false
      → t.sent ≡ y.system.server.sent ++ p ∷ []
      → Steady y k hs
      → Steady (take_up a n t y) k hs
  took_elsewhere a n k t y p hs other apart e s fitting =
      let sent = y.system.server.sent in
      let short =
        rw (e, only-append (λ p. p.0) k sent (p ∷ []), only_other (λ p. p.0) k p apart) at
          fitting.1 in
      rw
        (
          other,
          stream_step k y.system.server t (p ∷ []) e,
          stream_other k p apart,
          append-nil (stream k sent),
        )
        (s (fitting.0, rw (append-nil (only (λ p. p.0) k sent)) at short))

  all_there : {P : Type 0} (j k : ℕ) → (j == k) ≡ true → ((j == k) ≡ false) ⊎ P → P
  all_there j k same (inl other) = absurd (cc)
  all_there j k same (inr p) = p

  took-Steady :
      (a n k : ℕ) (t : Server W) (y : Network W) (h : Handling W) (p : ℕ × Text)
      (hs : List (Handling W))
      → arrived y a n ≢ []
      → (((y.system.server.sessions a).sock == k) ≡ false) ⊎ (length (pending y a) ≤ n)
      → read_message (arrived y a n) ≡ some h.message
      → Reply fap h p
      → p.0 ≡ (y.system.server.sessions a).sock
      → origin h ≡ (y.system.server.sessions a).sock
      → t.sent ≡ y.system.server.sent ++ p ∷ []
      → Steady y k hs
      → Steady (take_up a n t y) k (hs ++ only origin k (h ∷ []))
  took-Steady a n k t y h p hs there whole m r on from e s =
      let j = (y.system.server.sessions a).sock in
      elim (Bool-cases (j == k)) [
        | inl same ↦ rw (only_same origin k h (rw from same)) (
            subst (λ i. Steady y i hs → Steady (take_up a n t y) i (hs ++ h ∷ []))
              (nat_eq-eq j k same)
              (took_here a n t y h p hs there (all_there j k same whole) m r (rw on (==_self j)) e)
              s)
        | inr other ↦
            rw (only_other origin k h (rw from other), append-nil hs)
              (took_elsewhere a n k t y p hs other (rw on other) e s)
      ]

  pub takes-Steady :
      (a n k : ℕ) (t : Server W) (y : Network W) (hs : List (Handling W))
      → arrived y a n ≢ []
      → (((y.system.server.sessions a).sock == k) ≡ false) ⊎ (length (pending y a) ≤ n)
      → turn fap a (received (arrived y a n)) y.system.server ≡ again t
      → Steady y k hs
      → Steady
          (take_up a n t y)
          k
          (hs ++ only origin k (taken a y.system.server (received (arrived y a n))))
  unfolding turn
  takes-Steady a n k t y hs there whole e s =
      let said = again-Said fap a (received (arrived y a n)) y.system.server t e in
      elim (Option-cases (read_message (arrived y a n))) [
        | inl miss ↦ absurd (cc (rw (miss, turn) at e))
        | inr (message, hit) ↦
            let (ps, f, replies) = rw (hit, taken) at said in
            let (p, one, r) = one_reply replies in
            let g = f ∙ ap (λ (qs : List (ℕ × Text)). y.system.server.sent ++ qs) one in
            rw (hit, taken)
              (took-Steady a n k t y
                (record { who = a; message = message; state = y.system.server }) p hs there whole
                hit r (Reply-origin r) refl g s)
      ]
