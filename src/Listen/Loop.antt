-- ===== src/Listen/Loop.antt =====
-- The loop of AcceptAndDispatch as a run of the process.
use fap2_srv.Prelude.{
  ℕ, zero, suc, ◌+◌, ◌<◌, length, get_elem?, Text, text_key, Option, none, some, List, [], ◌∷◌, ◌≡◌,
  refl, ap, subst, ◌∙◌, arith,
}
use fap2_srv.Fap.{Fap, Outcome, ok, threw}
use fap2_srv.Server.{session, Server}
use fap2_srv.Session.{provider_key}
use fap2_srv.Session.Frame.{add_context-Frame}
use fap2_srv.Threads.{System, accept, accepts, built, Reach, here, next, boot}
use fap2_srv.Threads.Building.{built-ok}
use fap2_srv.Listen.{
  Sockets, Listener, new_server, new_session_client, Rounds, goes, left, constructed, accept_round,
  accept_and_dispatch, serve,
}

-- The main thread is between two constructors, in a state that the process can reach.
pub record Idle {W : Type 0} (fap : Fap W) (w : W) (y : System W) : Type 0 where
  pub reach : Reach fap (boot w) y
  pub idle : y.building ≡ none

module _ {W : Type 0} (fap : Fap W) where
  paired :
      (r : Outcome (Unit {0}) × Server W) (t : Server W) → r.0 ≡ ok tt → r.1 ≡ t → r ≡ (ok tt, t)
  paired r t e f = ap (λ (x : Outcome (Unit {0})). (x, r.1)) e ∙ ap (λ (x : Server W). (ok tt, x)) f

  -- The constructor returns, and the steps that it takes are steps of the process.
  pub new_session_client-Idle :
      (w : W) (sock : ℕ) (y : System W)
      → Idle fap w y
      → ((new_session_client sock y).0 ≡ ok tt) × Idle fap w (new_session_client sock y).1
  unfolding new_session_client accept
  new_session_client-Idle w sock y h =
      let r = next h.reach (accepts sock h.idle) in
      let fine = built-ok fap y.server.count r refl in
      (
        fine,
        record { reach = next r (built y.server.count _ refl (paired _ _ fine refl)); idle = refl },
      )

-- The sockets that accept gives in a number of rounds.
abbrev pub with_socket : Option ℕ → List ℕ → List ℕ
with_socket none socks = socks
with_socket (some sock) socks = sock ∷ socks

unfoldable pub accepted : {N : Type 0} → Sockets N → ℕ → Listener → N → List ℕ
accepted sys zero l n = []
accepted sys (suc rounds) l n =
    let (got, m) = sys.accept l.sock n in with_socket got (accepted sys rounds l m)

-- The sessions from a number on have the sockets, and those below it are as they were.
pub record Holds {W : Type 0} (from : ℕ) (socks : List ℕ) (y z : System W) : Type 0 where
  pub count : z.server.count ≡ from + length socks
  pub old : (b : ℕ) → b < from → (z.server.sessions b).sock ≡ (y.server.sessions b).sock
  pub new :
      (i sock : ℕ) → get_elem? socks i ≡ some sock → (z.server.sessions (from + i)).sock ≡ sock

module _ {W : Type 0} where
  made_session :
      (sock : ℕ) (y : System W)
      → let z = (new_session_client sock y).1 in
        (z.server.count ≡ suc y.server.count)
        × ((b : ℕ) → b < y.server.count → (z.server.sessions b).sock ≡ (y.server.sessions b).sock)
        × ((z.server.sessions y.server.count).sock ≡ sock)
  unfolding new_session_client accept
  made_session sock y =
      let a = y.server.count in
      let f = (add_context-Frame a a provider_key (some (session a))).at (accept sock y).server in
      (f.count, λ b h. f.sock b ∙ ground arith, f.sock a ∙ ground arith)

  further :
      (sock : ℕ) (socks : List ℕ) (y z : System W)
      → Holds (suc y.server.count) socks (new_session_client sock y).1 z
      → Holds y.server.count (sock ∷ socks) y z
  further sock socks y z h =
      let (count, old, mine) = made_session sock y in
      record {
        count = omega (arith, h.count);
        old = λ b k. h.old b (omega (arith, k)) ∙ old b k;
        new = further_new;
      }
    where
      further_new :
          (i sock' : ℕ)
          → get_elem? (sock ∷ socks) i ≡ some sock'
          → (z.server.sessions (y.server.count + i)).sock ≡ sock'
      further_new zero sock' e =
          let same : sock ≡ sock' = cc in
          let here : y.server.count + 0 ≡ y.server.count = omega arith in
          ap (λ (k : ℕ). (z.server.sessions k).sock) here
          ∙ h.old y.server.count (omega arith)
          ∙ (made_session sock y).2
          ∙ same
      further_new (suc i) sock' e =
          let there : y.server.count + suc i ≡ suc y.server.count + i = omega arith in
          ap (λ (k : ℕ). (z.server.sessions k).sock) there ∙ h.new i sock' e

  returned :
      (errors : List Text) (r : Outcome (Unit {0}) × System W)
      → r.0 ≡ ok tt
      → constructed errors r ≡ goes r.1 errors
  returned errors (ok done, y) e = refl
  returned errors (threw what, y) e = absurd (cc)

module _ {N W : Type 0} (fap : Fap W) (sys : Sockets N) (w : W) where
  -- The rounds go on, as a run of the process that makes the sessions.
  abbrev pub Goes : ℕ → List ℕ → System W → Rounds W × N → Type 0
  Goes from socks y r =
      (z : System W) × (errors : List Text) × (r.0 ≡ goes z errors)
      × Idle fap w z
      × Holds from socks y z

  -- The rounds behind one.
  abbrev after_round : ℕ → Listener → Rounds W → N → Rounds W × N
  after_round rounds l x m = elim x [
    | goes y' errors' ↦ accept_and_dispatch sys rounds l y' errors' m
    | left what y' errors' ↦ (left what y' errors', m)
  ]

  one_round :
      (rounds : ℕ) (l : Listener) (y : System W) (errors : List Text) (got : Option ℕ) (m : N)
      → Idle fap w y
      → ((y' : System W) (errors' : List Text)
          → Idle fap w y'
          → Goes y'.server.count
              (accepted sys rounds l m)
              y'
              (accept_and_dispatch sys rounds l y' errors' m))
      → Goes y.server.count
          (with_socket got (accepted sys rounds l m))
          y
          (after_round rounds l (accept_round got y errors) m)
  unfolding accept_round
  one_round rounds l y errors none m h rest = rest y _ h
  one_round rounds l y errors (some sock) m h rest =
      let (fine, idle) = new_session_client-Idle fap w sock y h in
      let y' = (new_session_client sock y).1 in
      let (z, errors', e, i, holds) = rest y' errors idle in
      (
        z,
        errors',
        ap (λ x. (after_round rounds l x m).0) (returned errors (new_session_client sock y) fine)
            ∙ e,
        i,
        further sock (accepted sys rounds l m) y z (
            subst (λ (k : ℕ). Holds k (accepted sys rounds l m) y' z) (made_session sock y).0
              holds),
      )

  accept_and_dispatch-Goes :
      (rounds : ℕ) (l : Listener) (y : System W) (errors : List Text) (n : N)
      → Idle fap w y
      → Goes y.server.count
          (accepted sys rounds l n)
          y
          (accept_and_dispatch sys rounds l y errors n)
  unfolding accept_and_dispatch accepted
  accept_and_dispatch-Goes zero l y errors n h = (
    y,
    errors,
    refl,
    h,
    record { count = omega arith; old = λ b h. refl; new = λ i sock e. absurd (cc) },
  )
  accept_and_dispatch-Goes (suc rounds) l y errors n h =
      let (got, m) = sys.accept l.sock n in
      one_round rounds l y errors got m h
        λ y' errors' idle. accept_and_dispatch-Goes rounds l y' errors' m idle

  -- What main does in a number of rounds of AcceptAndDispatch, with no other thread in between, is
  -- a run of the process that ends between two constructors, whatever the calls on the listening
  -- socket give: no constructor throws out of the loop, and the sessions that were made have the
  -- sockets that accept gave, in their order.
  pub serve-run :
      (rounds : ℕ) (n : N)
      → let (l, m) = new_server sys n in
        (y : System W) × (errors : List Text) × ((serve sys rounds w n).0 ≡ goes y errors)
        × Idle fap w y
        × Holds 0 (accepted sys rounds l m) (boot w) y
  unfolding serve
  serve-run rounds n =
      accept_and_dispatch-Goes rounds _ (boot w) _ _ (record { reach = here; idle = refl })
