-- ===== src/Threads/Ids.antt =====
-- The ids of sessions: positions in the list until somebody leaves, and not unique afterwards.
use fap2_srv.Prelude.{
  ℕ, ◌<◌, ◌≤◌, some, List, [], ◌∷◌, ◌++◌, true, get_elem?, All, All-get_elem?, get_elem?-snoc,
  length, ◌≡◌, ◌≢◌, ap, sym, subst, ◌∙◌, arith, inl, inr, pos, Bool-cases, ◌==◌,
}
use fap2_srv.Fap.{Fap, Outcome}
use fap2_srv.Server.{session, Session, Server, update}
use fap2_srv.Session.{provider_key, find_by_id}
use fap2_srv.Session.Frame.{add_context-Frame}
use fap2_srv.Handler.Isolation.{Touches, Frame-Touches}
use fap2_srv.Registry.{numbered, register}
use fap2_srv.Registry.Counts.{count_id, count_id-append, count_id-get_elem?, count_id-update}
use fap2_srv.Threads.{
  System, accept, Step, accepts, built, starts, goes_on, ends, Reach, here, next, boot,
}
use fap2_srv.Threads.Invariant.{Inv, Known}
use fap2_srv.Threads.Steps.{Reach-Inv, again-Isolated}

listed_id :
    (heap : ℕ → Session) (a n : ℕ) (c : Session)
    → c.id ≡ n
    → count_id (update heap a c) n (a ∷ []) ≡ 1
listed_id heap a n c e = ground arith

-- An id that is in a list leads to an entry of it, whatever stands behind.
found_before :
    (P : ℕ → Type 0) (heap : ℕ → Session) (a k : ℕ) (xs ys : List ℕ)
    → All P xs
    → ((d : ℕ) → P d → d ≢ a)
    → 0 < count_id heap k xs
    → (c : ℕ) × (find_by_id heap (pos k) (xs ++ ys) ≡ some c) × (c ≢ a)
unfolding find_by_id
found_before P heap a k [] ys h ne more = absurd (omega (arith, more))
found_before P heap a k (x ∷ xs) ys h ne more = elim (Bool-cases ((heap x).id == k)) [
  | inl hit ↦ (x, ground (arith, hit), ne x h.0)
  | inr miss ↦
      let (c, e, f) = found_before P heap a k xs ys h.1 ne (ground (arith, more, miss)) in
      (c, ground (arith, miss, e), f)
]

module _ {W : Type 0} where
  register-id : (a : ℕ) (s : Server W) → ((register a s).sessions a).id ≡ length s.clients
  unfolding register
  register-id a s = ground arith

  listed_twice :
      (y : System W) (a b i n : ℕ) (c : Session)
      → Inv y
      → y.fresh a ≡ true
      → get_elem? y.running i ≡ some b
      → (y.server.sessions b).id ≡ n
      → c.id ≡ n
      → 2 ≤ count_id (update y.server.sessions a c) n (y.server.clients ++ a ∷ [])
  listed_twice y a b i n c v new run same e = omega (
    arith,
    v.counts n,
    count_id-append (update y.server.sessions a c) n y.server.clients (a ∷ []),
    count_id-update (Known y) y.server.sessions a n c y.server.clients v.listed
        (λ d h. ground arith),
    listed_id y.server.sessions a n c e,
    subst (λ (k : ℕ). 0 < count_id y.server.sessions k y.running) same
        (count_id-get_elem? y.server.sessions b i y.running run),
  )

module _ {W : Type 0} (fap : Fap W) where
  -- A session whose thread starts gets the number of running sessions as its id; if a running
  -- session has that id already, two entries of the list of clients have it, and what
  -- FindSessionClientById finds for the id of the new session is another session.
  pub start_shares_id :
      {w : W} {y : System W} (a b i : ℕ)
      → Reach fap (boot w) y
      → y.fresh a ≡ true
      → get_elem? y.running i ≡ some b
      → (y.server.sessions b).id ≡ length y.running
      → let s = register a y.server in
        ((s.sessions a).id ≡ length y.running)
        × (2 ≤ count_id s.sessions (length y.running) s.clients)
        × (c : ℕ) × (find_by_id s.sessions (pos (s.sessions a).id) s.clients ≡ some c)
        × (c ≢ a)
  unfolding register
  start_shares_id {y = y} a b i r new run same =
      let v = Reach-Inv fap r in
      let n = length y.running in
      let heap = (register a y.server).sessions in
      let id : (heap a).id ≡ n = register-id a y.server ∙ v.size in
      let before : 0 < count_id heap n y.server.clients = omega (
        arith,
        listed_twice y a b i n (numbered (length y.server.clients) (y.server.sessions a)) v new run
            same v.size,
        count_id-append heap n y.server.clients (a ∷ []),
        listed_id y.server.sessions a n (numbered (length y.server.clients) (y.server.sessions a))
            v.size,
      ) in
      let found =
        subst
          (λ (k : ℕ).
            (c : ℕ) × (find_by_id heap (pos k) (y.server.clients ++ a ∷ []) ≡ some c) × (c ≢ a))
          (sym id)
          (found_before (Known y) heap a n y.server.clients (a ∷ []) v.listed
            (λ d h e. absurd (cc (ap y.fresh e, new, h.0))) before) in
      (
        id,
        listed_twice y a b i n (numbered (length y.server.clients) (y.server.sessions a)) v new run
            same v.size,
        found.0,
        found.1,
        found.2,
      )

-- Every session in the list has its position as its id.
pub record Numbered {W : Type 0} (s : Server W) : Type 0 where
  pub position : (i b : ℕ) → get_elem? s.clients i ≡ some b → (s.sessions b).id ≡ i

-- The step is not the end of a thread.
abbrev pub Stays : {W : Type 0} {fap : Fap W} {y z : System W} → Step fap y z → Type 0
Stays (ends a i event t run e) = ⊥
Stays _ = Unit {0}

module _ {W : Type 0} where
  accept-Numbered :
      (sock : ℕ) (y : System W) → Inv y → Numbered y.server → Numbered (accept sock y).server
  unfolding accept
  accept-Numbered sock y v n = record {
    position = λ i b e.
        ground (arith, n.position i b e, All-get_elem? (Known y) i b y.server.clients v.listed e);
  }

  start-Numbered :
      (a : ℕ) (y : System W)
      → Inv y
      → y.fresh a ≡ true
      → Numbered y.server
      → Numbered (register a y.server)
  unfolding register
  start-Numbered a y v new n = record {
    position = λ i b e. elim (get_elem?-snoc y.server.clients a b i e) [
      | inl old ↦
          ground
            (arith, n.position i b old, All-get_elem? (Known y) i b y.server.clients v.listed old)
      | inr (at_end, same) ↦ ground arith
    ];
  }

  keep-Numbered : (a o : ℕ) (s t : Server W) → Touches a o s t → Numbered s → Numbered t
  keep-Numbered a o s t f n = record {
    position = λ i b e.
        f.id b ∙ n.position i b (subst (λ (xs : List ℕ). get_elem? xs i ≡ some b) f.clients e);
  }

module _ {W : Type 0} (fap : Fap W) where
  -- The ids are the positions in the list, and stay so until somebody leaves.
  pub Step-Numbered :
      {y z : System W} (st : Step fap y z)
      → Stays st
      → Inv y
      → Numbered y.server
      → Numbered z.server
  Step-Numbered {y} (accepts sock idle) stays v n = accept-Numbered sock y v n
  Step-Numbered {y} (built a t main e) stays v n =
      subst (λ (u : Server W). Numbered u) (ap (λ (r : Outcome (Unit {0}) × Server W). r.1) e)
        (keep-Numbered a a y.server _
          (Frame-Touches ((add_context-Frame a a provider_key (some (session a))).at y.server)) n)
  Step-Numbered {y} (starts a new) stays v n = start-Numbered a y v new n
  Step-Numbered {y} (goes_on a i event t run e) stays v n =
      keep-Numbered a _ y.server t (again-Isolated fap y.server a event t v.owned e).touches n
  Step-Numbered {y} (ends a i event t run e) stays v n = absurd stays

  -- No step of the way is the end of a thread.
  abbrev pub Quiet : {y z : System W} → Reach fap y z → Type 0
  Quiet here = Unit {0}
  Quiet (next r st) = Quiet r × Stays st

  -- As long as no thread has ended, every session in the list of clients has its position as its
  -- id.
  pub Reach-Numbered :
      {w : W} {y : System W} (r : Reach fap (boot w) y) → Quiet r → Numbered y.server
  Reach-Numbered here q = record { position = λ i b e. absurd (cc) }
  Reach-Numbered (next r st) q = Step-Numbered st q.1 (Reach-Inv fap r) (Reach-Numbered r q.0)
