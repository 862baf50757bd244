-- ===== src/Locks/Found.antt =====
-- A thread that leaves always finds its id in the list of clients, also where the statements of the
-- critical sections of server/sclient.cpp interleave with the code outside of them.
use fap2_srv.Prelude.{
  ℕ, ◌==◌, Text, true, false, some, List, [], ◌∷◌, ◌++◌, ◌≡◌, refl, sym, ap, ◌∙◌, subst, arith,
  erase_at, get_elem?, Bool-cases, Option-cases, inl, inr,
}
use fap2_srv.Server.{Session, Server, update}
use fap2_srv.Registry.{find_index}
use fap2_srv.Registry.Counts.{count_id, count_id-append, count_id-erase_at, count_id-remove}
use fap2_srv.Handler.{send}
use fap2_srv.Locks.{
  entering, leaving, sending, Point, begins, in_loop, gone, waits, at_set_id, at_set_name,
  at_push_back, at_find_index, at_erase, at_send, at_unlock, Machine, statement, moved,
}
use fap2_srv.Locks.Order.{
  tally, tally-append, tally-erase_at-le, tally-erase_at, tally-get_elem?, count_id-absent, weight,
  unregistered, Alike, at_point,
}

-- The list of clients and the threads that have registered and not left.
pub record Orderly {W : Type 0} (m : Machine W) (run : List ℕ) : Type 0 where
  pub tally_run : (b : ℕ) → tally b run ≡ weight (m.point b)
  pub absent : (b : ℕ) → unregistered (m.point b) ≡ true → tally b m.server.clients ≡ 0
  pub counts :
      (k : ℕ) → count_id m.server.sessions k m.server.clients ≡ count_id m.server.sessions k run
  pub at_index :
      (b i : ℕ)
      → m.point b ≡ at_erase i
      → find_index m.server.sessions (m.server.sessions b).id m.server.clients ≡ some i

-- No other thread is in front of an erase.
abbrev pub Lone : {W : Type 0} → Machine W → ℕ → Type 0
Lone m a = (b i : ℕ) → (a == b) ≡ false → m.point b ≡ at_erase i → ⊥

abbrev pub Kept : {W : Type 0} → Machine W → Type 0
Kept m = (run : List ℕ) × Orderly m run

module _ {W : Type 0} where
  -- A step to a point that stands alike, with the server as it is.
  pub Alike-Orderly :
      (m : Machine W) (run : List ℕ) (a : ℕ) (q : Point)
      → Alike (m.point a) q
      → Orderly m run
      → Orderly (moved m a q) run
  Alike-Orderly m run a q h v = record {
    tally_run = λ b. ground (arith, v.tally_run b, h.weight);
    absent = λ b e. ground (arith, v.absent b, h.unregistered);
    counts = v.counts;
    at_index = λ b i e. elim (Bool-cases (a == b)) [
      | inl here ↦ absurd (h.no_erase i (ground (arith)))
      | inr other ↦ v.at_index b i (ground arith)
    ];
  }

  -- The session that registers gets another number or name, with the lists as they are.
  renumbered :
      (m : Machine W) (run : List ℕ) (a : ℕ) (q : Point) (c : Session)
      → Alike (m.point a) q
      → unregistered (m.point a) ≡ true
      → weight (m.point a) ≡ 0
      → Lone m a
      → Orderly m run
      → Orderly
          (record (moved m a q) {
            server = record m.server { sessions = update m.server.sessions a c };
          })
          run
  renumbered m run a q c h new light lone v = record {
    tally_run = λ b. ground (arith, v.tally_run b, h.weight);
    absent = λ b e. ground (arith, v.absent b, h.unregistered);
    counts = λ k.
        count_id-absent m.server.sessions a k c m.server.clients (v.absent a new)
        ∙ v.counts k
        ∙ sym (count_id-absent m.server.sessions a k c run (v.tally_run a ∙ light));
    at_index = λ b i e. elim (Bool-cases (a == b)) [
      | inl here ↦ absurd (h.no_erase i (ground (arith)))
      | inr other ↦ absurd (lone b i other (ground arith))
    ];
  }

  pushed :
      (m : Machine W) (run : List ℕ) (a : ℕ)
      → m.point a ≡ at_push_back
      → Lone m a
      → Orderly m run
      → Orderly
          (record (moved m a (at_unlock entering)) {
            server = record m.server { clients = m.server.clients ++ a ∷ [] };
          })
          (run ++ a ∷ [])
  pushed m run a at lone v = record {
    tally_run = λ b. ground (arith, v.tally_run b, tally-append b run (a ∷ []), at);
    absent = λ b e. ground (arith, v.absent b, tally-append b m.server.clients (a ∷ []));
    counts = λ k. omega (
      arith,
      v.counts k,
      count_id-append m.server.sessions k m.server.clients (a ∷ []),
      count_id-append m.server.sessions k run (a ∷ []),
    );
    at_index = λ b i e. elim (Bool-cases (a == b)) [
      | inl here ↦ absurd (ground arith)
      | inr other ↦ absurd (lone b i other (ground arith))
    ];
  }

  indexed :
      (m : Machine W) (run : List ℕ) (a i : ℕ)
      → m.point a ≡ at_find_index
      → find_index m.server.sessions (m.server.sessions a).id m.server.clients ≡ some i
      → Orderly m run
      → Orderly (moved m a (at_erase i)) run
  indexed m run a i at found v = record {
    tally_run = λ b. ground (arith, v.tally_run b, at);
    absent = λ b e. ground (arith, v.absent b);
    counts = v.counts;
    at_index = λ b j e. elim (Bool-cases (a == b)) [
      | inl here ↦ ground (arith, found)
      | inr other ↦ v.at_index b j (ground arith)
    ];
  }

  erased :
      (m : Machine W) (run : List ℕ) (a i j : ℕ)
      → m.point a ≡ at_erase i
      → get_elem? run j ≡ some a
      → Lone m a
      → Orderly m run
      → Orderly
          (record (moved m a (at_unlock leaving)) {
            server = record m.server { clients = erase_at i m.server.clients };
          })
          (erase_at j run)
  erased m run a i j at there lone v = record {
    tally_run = λ b. ground (arith, v.tally_run b, tally-erase_at a b j run there, at);
    absent = λ b e. ground (arith, v.absent b, tally-erase_at-le b i m.server.clients);
    counts = λ k. omega (
      arith,
      v.counts k,
      count_id-erase_at m.server.sessions (m.server.sessions a).id k i m.server.clients
          (v.at_index a i at),
      count_id-remove m.server.sessions a k j run there,
    );
    at_index = λ b k e. elim (Bool-cases (a == b)) [
      | inl here ↦ absurd (ground arith)
      | inr other ↦ absurd (lone b k other (ground arith))
    ];
  }

  spoken :
      (m : Machine W) (run : List ℕ) (a : ℕ) (text : Text)
      → m.point a ≡ at_send text
      → Orderly m run
      → Orderly
          (record (moved m a (at_unlock (sending text))) { server = (send a text m.server).1 })
          run
  unfolding send
  spoken m run a text at v =
      let h =
        Alike-Orderly m run a (at_unlock (sending text))
          (at_point at (record { weight = refl; unregistered = refl; no_erase = λ i e. cc })) v in
      record {
        tally_run = h.tally_run;
        absent = h.absent;
        counts = h.counts;
        at_index = h.at_index;
      }

  -- A statement of a thread.
  done_as :
      (m : Machine W) (a : ℕ) (x y : Point × Server W)
      → some x ≡ some y
      → Kept (record (moved m a x.0) { server = x.1 })
      → Kept (record (moved m a y.0) { server = y.1 })
  done_as m a x y e h =
      let same : x ≡ y = cc in
      subst (λ (r : Point × Server W). Kept (record (moved m a r.0) { server = r.1 })) same h

  pub runs-Kept :
      (m : Machine W) (run : List ℕ) (a : ℕ) (p q : Point) (t : Server W)
      → m.point a ≡ p
      → statement a p m.server ≡ some (q, t)
      → Lone m a
      → Orderly m run
      → Kept (record (moved m a q) { server = t })
  unfolding statement
  runs-Kept m run a begins q t at e lone v = absurd (cc)
  runs-Kept m run a in_loop q t at e lone v = absurd (cc)
  runs-Kept m run a gone q t at e lone v = absurd (cc)
  runs-Kept m run a (waits w) q t at e lone v = absurd (cc)
  runs-Kept m run a (at_unlock w) q t at e lone v = absurd (cc)
  runs-Kept m run a at_set_id q t at e lone v =
      done_as m a _ (q, t) e
        (
          run,
          renumbered m run a at_set_name _
              (at_point at (record { weight = refl; unregistered = refl; no_erase = λ i e. cc }))
              (ap unregistered at) (ap weight at) lone v,
        )
  runs-Kept m run a at_set_name q t at e lone v =
      done_as m a _ (q, t) e
        (
          run,
          renumbered m run a at_push_back _
              (at_point at (record { weight = refl; unregistered = refl; no_erase = λ i e. cc }))
              (ap unregistered at) (ap weight at) lone v,
        )
  runs-Kept m run a at_push_back q t at e lone v =
      done_as m a _ (q, t) e (run ++ a ∷ [], pushed m run a at lone v)
  runs-Kept m run a at_find_index q t at e lone v =
      elim (Option-cases (find_index m.server.sessions (m.server.sessions a).id m.server.clients)) [
        | inl miss ↦ absurd (cc (rw miss at e))
        | inr (i, hit) ↦ done_as m a _ (q, t) (rw hit at e) (run, indexed m run a i at hit v)
      ]
  runs-Kept m run a (at_erase i) q t at e lone v =
      let (j, there) = tally-get_elem? a run (ground (arith, v.tally_run a, at)) in
      done_as m a _ (q, t) e (erase_at j run, erased m run a i j at there lone v)
  runs-Kept m run a (at_send text) q t at e lone v =
      done_as m a _ (q, t) e (run, spoken m run a text at v)
