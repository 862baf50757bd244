-- ===== src/Threads/Invariant.antt =====
-- What holds after any steps of the system: the list of clients counts the running threads.
use fap2_srv.Prelude.{
  ℕ, ◌<◌, Option, some, [], ◌∷◌, ◌++◌, true, false, All, All-append, All-mono, All-erase_at,
  get_elem?, erase_at, length, length-append, length-erase_at, ◌≡◌, refl, sym, ap, subst, ◌∙◌,
  arith, Option-cases, inl, inr, at, text_key,
}
use fap2_srv.Fap.{Outcome, ok, threw}
use fap2_srv.Server.{Session, Server, update}
use fap2_srv.Session.Owned.{Owned}
use fap2_srv.Handler.Isolation.{Touches}
use fap2_srv.Registry.{find_index, register, unregister}
use fap2_srv.Registry.Counts.{
  count_id, count_id-append, count_id-same, count_id-erase_at, count_id-remove, length-erase_found,
  count_id-update,
}
use fap2_srv.Threads.{again, ended, settle, System, new_session, accept, boot}

-- The thread of the session has registered, now or in the past.
abbrev pub Known : {W : Type 0} → System W → ℕ → Type 0
Known y b = (y.fresh b ≡ false) × (b < y.server.count)

pub record Inv {W : Type 0} (y : System W) : Type 0 where
  pub owned : Owned y.server
  pub fresh : (b : ℕ) → y.fresh b ≡ true → b < y.server.count
  pub listed : All (Known y) y.server.clients
  pub known : All (Known y) y.running
  pub counts :
      (k : ℕ)
      → count_id y.server.sessions k y.server.clients ≡ count_id y.server.sessions k y.running
  pub size : length y.server.clients ≡ length y.running

module _ {W : Type 0} where
  pub boot-Inv : (w : W) → Inv (boot w)
  unfolding at
  boot-Inv w = record {
    owned = record { self = λ b c k e. cc };
    fresh = λ b e. cc;
    listed = tt;
    known = tt;
    counts = λ k. refl;
    size = refl;
  }

  pub accept-Inv : (sock : ℕ) (y : System W) → Inv y → Inv (accept sock y)
  unfolding accept at
  accept-Inv sock y v = record {
    owned = record { self = λ b c k. ground (arith, v.owned.self b c k) };
    fresh = λ b. ground (arith, v.fresh b);
    listed =
        All-mono (Known y) (Known (accept sock y)) y.server.clients (λ b h. ground arith) v.listed;
    known = All-mono (Known y) (Known (accept sock y)) y.running (λ b h. ground arith) v.known;
    counts = λ k.
        count_id-update (Known y) y.server.sessions y.server.count k (new_session sock)
          y.server.clients v.listed (λ b h. ground arith)
        ∙ v.counts k
        ∙ sym (
            count_id-update (Known y) y.server.sessions y.server.count k (new_session sock)
              y.running v.known (λ b h. ground arith));
    size = v.size;
  }

  -- The counts after a session that was in neither list was changed and put into both.
  start-counts :
      (y : System W) (a k : ℕ) (c : Session)
      → Inv y
      → y.fresh a ≡ true
      → count_id (update y.server.sessions a c) k (y.server.clients ++ a ∷ [])
        ≡ count_id (update y.server.sessions a c) k (y.running ++ a ∷ [])
  start-counts y a k c v new = omega (
    arith,
    count_id-append (update y.server.sessions a c) k y.server.clients (a ∷ []),
    count_id-append (update y.server.sessions a c) k y.running (a ∷ []),
    count_id-update (Known y) y.server.sessions a k c y.server.clients v.listed
        (λ b h. ground arith),
    count_id-update (Known y) y.server.sessions a k c y.running v.known (λ b h. ground arith),
    v.counts k,
  )

  abbrev pub started : ℕ → System W → System W
  started a y = record y {
    server = register a y.server;
    fresh = update y.fresh a false;
    running = y.running ++ a ∷ [];
  }

  pub start-Inv : (a : ℕ) (y : System W) → y.fresh a ≡ true → Inv y → Inv (started a y)
  unfolding register
  start-Inv a y new v = record {
    owned = record { self = λ b c k. ground (arith, v.owned.self b c k, v.owned.self a c k) };
    fresh = λ b. ground (arith, v.fresh b);
    listed =
        All-append (Known (started a y)) y.server.clients (a ∷ [])
          (All-mono (Known y) (Known (started a y)) y.server.clients (λ b h. ground arith) v.listed)
          (ground (arith, v.fresh a));
    known =
        All-append (Known (started a y)) y.running (a ∷ [])
          (All-mono (Known y) (Known (started a y)) y.running (λ b h. ground arith) v.known)
          (ground (arith, v.fresh a));
    counts = λ k. start-counts y a k _ v new;
    size = omega (
      arith,
      v.size,
      length-append {0} y.server.clients (a ∷ []),
      length-append {0} y.running (a ∷ []),
    );
  }

  -- A change of the server that leaves the ids and the list alone.
  pub keep-Inv :
      (y : System W) (t : Server W) (building : Option ℕ) (a o : ℕ)
      → Inv y
      → Owned t
      → Touches a o y.server t
      → Inv (record y { server = t; building = building })
  keep-Inv y t building a o v h f = record {
    owned = h;
    fresh = λ b e. subst (λ (n : ℕ). b < n) (sym f.count) (v.fresh b e);
    listed = subst (All (Known (record y { server = t; building = building }))) (sym f.clients) (
        All-mono (Known y) (Known (record y { server = t; building = building })) y.server.clients
          (λ b h. (h.0, subst (λ (n : ℕ). b < n) (sym f.count) h.1)) v.listed);
    known =
        All-mono (Known y) (Known (record y { server = t; building = building })) y.running
          (λ b h. (h.0, subst (λ (n : ℕ). b < n) (sym f.count) h.1)) v.known;
    counts = λ k.
        ap (count_id t.sessions k) f.clients
        ∙ count_id-same y.server.sessions t.sessions k y.server.clients f.id
        ∙ v.counts k
        ∙ sym (count_id-same y.server.sessions t.sessions k y.running f.id);
    size = ap (length {0}) f.clients ∙ v.size;
  }

  pub settle-again :
      (r : Outcome (Unit {0}) × Server W) (t : Server W) → settle r ≡ again t → r.1 ≡ t
  settle-again (ok done, s) t h = cc
  settle-again (threw what, s) t h = cc

  pub settle-ended : (r : Outcome (Unit {0}) × Server W) (t : Server W) → settle r ≡ ended t → ⊥
  settle-ended (ok done, s) t h = cc
  settle-ended (threw what, s) t h = cc

  unregister-inv :
      (a : ℕ) (s t : Server W)
      → unregister a s ≡ some t
      → (i : ℕ) × (find_index s.sessions (s.sessions a).id s.clients ≡ some i)
        × (record s { clients = erase_at i s.clients } ≡ t)
  unfolding unregister
  unregister-inv a s t h = elim (Option-cases (find_index s.sessions (s.sessions a).id s.clients)) [
    | inl e ↦ absurd (cc (rw e at h))
    | inr (i, e) ↦ (i, e, cc (rw e at h))
  ]

  pub leave-Inv :
      (y : System W) (a i : ℕ) (t : Server W)
      → Inv y
      → get_elem? y.running i ≡ some a
      → unregister a y.server ≡ some t
      → Inv (record y { server = t; running = erase_at i y.running })
  leave-Inv y a i t v run e =
      let (j, found, same) = unregister-inv a y.server t e in
      subst (λ (u : Server W). Inv (record y { server = u; running = erase_at i y.running })) same
        (record {
          owned = record { self = v.owned.self };
          fresh = v.fresh;
          listed = All-erase_at (Known y) j y.server.clients v.listed;
          known = All-erase_at (Known y) i y.running v.known;
          counts = λ k. omega (
            arith,
            v.counts k,
            count_id-erase_at y.server.sessions (y.server.sessions a).id k j y.server.clients found,
            count_id-remove y.server.sessions a k i y.running run,
          );
          size = omega (
            arith,
            v.size,
            length-erase_found y.server.sessions (y.server.sessions a).id j y.server.clients found,
            length-erase_at {0} a i y.running run,
          );
        })
