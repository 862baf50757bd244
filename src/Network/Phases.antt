-- ===== src/Network/Phases.antt =====
-- Where a client and its session are in their exchange.
use fap2_srv.Prelude.{
  ℕ, zero, suc, ◌+◌, ◌≤◌, ◌<◌, Text, c_str, some, List, [], ◌∷◌, ◌++◌, All, Bool, true, false, take,
  drop, take_all, drop_all, drop-append, length, length-append, ◌≡◌, ◌≢◌, refl, arith,
}
use fap2_srv.Fap.{Fap}
use fap2_srv.Threads.{read_message}
use fap2_srv.Threads.Conversation.{Handling, Reply, granted, refused}
use fap2_srv.Handler.Answers.{Granted, Refused}
use fap2_srv.Client.{Result, returned, buf_size, take_response, parse_response}
use fap2_srv.Network.{Caller}

-- A request of which something is sent.
abbrev pub Fits : Text → Type 0
Fits text = 0 < length text

-- A packet that fits the client's buffer.
abbrev pub Short : ℕ × Text → Type 0
Short p = length p.1 ≤ buf_size

module _ {W : Type 0} (fap : Fap W) where
  -- What Request gives for a message that was handled: `true` and what its call gave, or `false` and
  -- what went wrong; of a text that holds a NUL, what is before it.
  pub data Answer (h : Handling W) : Result (Bool × Text) → Type 0 where
    success :
        (args : Text)
        → Granted fap h.who h.message h.state args
        → Answer h (returned (true, c_str args))
    failure :
        (args : Text)
        → Refused fap h.who h.message h.state args
        → Answer h (returned (false, c_str args))

  pub Reply-Answer :
      (h : Handling W) (p : ℕ × Text) → Reply fap h p → Answer h (take_response (some p.1))
  unfolding take_response parse_response c_str
  Reply-Answer h p (granted args g) = success args g
  Reply-Answer h p (refused args g) = failure args g

  -- Each request was handled as one message, and answered with what this gave.
  pub data Talked : List Text → List (Handling W) → List (Result (Bool × Text)) → Type 0 where
    silent : Talked [] [] []
    spoke :
        {texts : List Text} {hs : List (Handling W)} {rs : List (Result (Bool × Text))}
        (text : Text) (h : Handling W) (r : Result (Bool × Text))
        → read_message text ≡ some h.message
        → Answer h r
        → Talked texts hs rs
        → Talked (texts ++ text ∷ []) (hs ++ h ∷ []) (rs ++ r ∷ [])

  pub asked_Fits : (texts : List Text) (text : Text) → All Fits (texts ++ text ∷ []) → Fits text
  asked_Fits [] text h = h.0
  asked_Fits (t ∷ texts) text h = asked_Fits texts text h.1

  -- A client with its connection, what it has sent and read, and the messages of the connection
  -- that were handled.
  pub data Phase : Caller → Text → Text → ℕ → List (Handling W) → Type 0 where
    idle :
        {texts : List Text} {hs : List (Handling W)} {rs : List (Result (Bool × Text))}
        (sent : Text)
        → Talked texts hs rs
        → Phase (record { asked = texts; results = rs; waits = false }) [] sent (length sent) hs
    under_way :
        {texts : List Text} {hs : List (Handling W)} {rs : List (Result (Bool × Text))}
        (text sent : Text)
        → Talked texts hs rs
        → Phase
            (record { asked = texts ++ text ∷ []; results = rs; waits = true })
            text
            sent
            (length sent)
            hs
    answered :
        {texts : List Text} {hs : List (Handling W)} {rs : List (Result (Bool × Text))}
        (text sent : Text) (h : Handling W) (p : ℕ × Text)
        → read_message text ≡ some h.message
        → Reply fap h p
        → Short p
        → Talked texts hs rs
        → Phase
            (record { asked = texts ++ text ∷ []; results = rs; waits = true })
            []
            (sent ++ p.1)
            (length sent)
            (hs ++ h ∷ [])

  pub ask-Phase :
      {c : Caller} {inbound sent : Text} {n : ℕ} {hs : List (Handling W)} (text : Text)
      → c.waits ≡ false
      → Phase c inbound sent n hs
      → Phase (record c { asked = c.asked ++ text ∷ []; waits = true }) (inbound ++ text) sent n hs
  ask-Phase text w (idle sent talked) = under_way text sent talked
  ask-Phase text w (under_way t sent talked) = absurd (cc)
  ask-Phase text w (answered t sent h p m r short talked) = absurd (cc)

  take_nothing : (m : ℕ) → take {A = ℕ} m [] ≡ []
  take_nothing zero = refl
  take_nothing (suc m) = refl

  pub take-Phase :
      {c : Caller} {inbound sent : Text} {n : ℕ} {hs : List (Handling W)} (m : ℕ) (h : Handling W)
      (p : ℕ × Text)
      → take m inbound ≢ []
      → length inbound ≤ m
      → read_message (take m inbound) ≡ some h.message
      → Reply fap h p
      → Short p
      → Phase c inbound sent n hs
      → Phase c (drop m inbound) (sent ++ p.1) n (hs ++ h ∷ [])
  take-Phase m h p there whole e r short (idle sent talked) = absurd (there (take_nothing m))
  take-Phase m h p there whole e r short (under_way t sent talked) =
      rw (drop_all m t whole) (answered t sent h p (rw (take_all m t whole) at e) r short talked)
  take-Phase m h p there whole e r short (answered t sent g q n s tiny talked) =
      absurd (there (take_nothing m))

  pub read-Phase :
      {c : Caller} {inbound sent : Text} {n : ℕ} {hs : List (Handling W)}
      → c.waits ≡ true
      → drop n sent ≢ []
      → Phase c inbound sent n hs
      → Phase
          (record c {
            results = c.results ++ take_response (some (take buf_size (drop n sent))) ∷ [];
            waits = false;
          })
          inbound
          sent
          (n + length (take buf_size (drop n sent)))
          hs
  read-Phase w there (idle sent talked) = absurd (cc)
  read-Phase w there (under_way t sent talked) =
      absurd (there (drop_all (length sent) sent (omega arith)))
  read-Phase w there (answered t sent h p m r short talked) =
      rw (drop-append sent p.1, take_all buf_size p.1 short, ← length-append sent p.1)
        (idle (sent ++ p.1) (spoke t h (take_response (some p.1)) m (Reply-Answer h p r) talked))
