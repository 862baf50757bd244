-- ===== src/Session/Spec.antt =====
-- What the contexts of the sessions promise, without the representation: partial functions from
-- handles to interfaces, of which an attached session uses those of another.
use fap2_srv.Prelude.{
  ℕ, ◌==◌, ◌&&◌, if◌then◌else◌, Text, codes, text_eq, has, at, insert, has-at, at-insert, text_key,
  ℤ, print_signed, Option, none, some, Option-cases, inl, inr, List, [], ◌∷◌, ◌++◌, true, false,
  ◌≡◌, refl, sym, ap, fun_ext, ◌∙◌, arith,
}
use fap2_srv.Fap.{Outcome, ok, threw}
use fap2_srv.Server.{Iface, Session, Server, update, modify}
use fap2_srv.Session.{pointer, find_by_id, context_owner, add_context, get_context, attach_env}

-- The abstract state: the contexts of each session, to which it is attached, and which session an
-- id names.
pub record Contexts : Type 0 where
  pub bound : ℕ → Text → Option (Option Iface)
  pub attached : ℕ → Option ℕ
  pub named : ℤ → Option ℕ

-- The operations on the contexts of a session.
pub data Op : Type 0 where
  adds : ℕ → Text → Option Iface → Op
  attaches : ℕ → ℤ → Op
  looks_up : ℕ → Text → Op

-- What an operation gives.
pub data Given : Type 0 where
  fine : Given
  refused : Text → Given
  found : Option Iface → Given

abbrev pub no_session : ℤ → Text
no_session id = codes "Session [" ++ print_signed id ++ codes "] for attaching not found"

abbrev bind :
    (ℕ → Text → Option (Option Iface)) → ℕ → Text → Option Iface → ℕ → Text → Option (Option Iface)
bind f a k p b j = if (a == b) && text_eq k j then some p else f b j

-- The specification of an operation.
unfoldable pub perform : Op → Contexts → Given × Contexts
unfolding print_signed
perform (adds a k p) c = elim (c.bound a k) [
  | some old ↦ (refused (codes "Context already exists"), c)
  | none ↦ (fine, record c { bound = bind c.bound a k p })
]
perform (attaches a id) c = elim (c.named id) [
  | some b ↦ (fine, record c { attached = update c.attached a (some b) })
  | none ↦ (refused (no_session id), c)
]
perform (looks_up a k) c =
    (found (pointer (c.bound (elim (c.attached a) [ none ↦ a | some b ↦ b ]) k)), c)

unfoldable pub perform_all : List Op → Contexts → List Given × Contexts
unfolding perform
perform_all [] c = ([], c)
perform_all (op ∷ ops) c =
    let (g, d) = perform op c in let (gs, e) = perform_all ops d in (g ∷ gs, e)

abbrev outcome : {W : Type 0} → Outcome (Unit {0}) × Server W → Given × Server W
outcome (ok done, s) = (fine, s)
outcome (threw what, s) = (refused what, s)

same_named :
    (heap heap' : ℕ → Session) (id : ℤ) (xs : List ℕ)
    → ((b : ℕ) → (heap' b).id ≡ (heap b).id)
    → find_by_id heap' id xs ≡ find_by_id heap id xs
unfolding find_by_id
same_named heap heap' id [] h = refl
same_named heap heap' id (b ∷ xs) h = rw (h b, same_named heap heap' id xs h)

contexts_ext :
    (c d : Contexts)
    → ((a : ℕ) (k : Text) → c.bound a k ≡ d.bound a k)
    → ((a : ℕ) → c.attached a ≡ d.attached a)
    → ((id : ℤ) → c.named id ≡ d.named id)
    → c ≡ d
contexts_ext c d bound attached named =
    ap (λ (f : ℕ → Text → Option (Option Iface)). record c { bound = f })
      (fun_ext λ a. fun_ext λ k. bound a k)
    ∙ ap (λ (f : ℕ → Option ℕ). record d { attached = f; named = c.named }) (fun_ext attached)
    ∙ ap (λ (f : ℤ → Option ℕ). record d { named = f }) (fun_ext named)

perform-adds :
    (a : ℕ) (k : Text) (p : Option Iface) (c : Contexts) (o : Option (Option Iface))
    → c.bound a k ≡ o
    → perform (adds a k p) c ≡ elim o [
      | some old ↦ (refused (codes "Context already exists"), c)
      | none ↦ (fine, record c { bound = bind c.bound a k p })
    ]
unfolding perform
perform-adds a k p c o e = rw (e, perform)

module _ {W : Type 0} where
  -- The operation as the server performs it.
  unfoldable pub run : Op → Server W → Given × Server W
  unfolding add_context attach_env get_context
  run (adds a k p) s = outcome (add_context a k p s)
  run (attaches a id) s = outcome (attach_env a id s)
  run (looks_up a k) s = (found (get_context a k s), s)

  unfoldable pub run_all : List Op → Server W → List Given × Server W
  unfolding run
  run_all [] s = ([], s)
  run_all (op ∷ ops) s = let (g, t) = run op s in let (gs, u) = run_all ops t in (g ∷ gs, u)

  -- The abstract state of a server.
  unfoldable pub view : Server W → Contexts
  unfolding at find_by_id
  view s = record {
    bound = λ a k. at k (s.sessions a).ctx;
    attached = λ a. (s.sessions a).attached;
    named = λ id. find_by_id s.sessions id s.clients;
  }

  viewed : Given × Server W → Given × Contexts
  viewed (g, s) = (g, view s)

  -- The server behind an insertion.
  with_ctx : ℕ → Text → Option Iface → Server W → Server W
  with_ctx a k p s = record s {
    sessions = update s.sessions a (record (s.sessions a) { ctx = insert k p (s.sessions a).ctx });
  }

  added :
      (a : ℕ) (k : Text) (p : Option Iface) (s : Server W)
      → at k (s.sessions a).ctx ≡ none
      → view (with_ctx a k p s) ≡ record (view s) { bound = bind (view s).bound a k p }
  unfolding view with_ctx
  added a k p s new =
      let lacks : has k (s.sessions a).ctx ≡ false = rw (has-at k (s.sessions a).ctx, new) in
      contexts_ext _ _ (λ b j. ground (arith, at-insert k j p (s.sessions a).ctx lacks))
        (λ b. ground arith)
        (λ id. same_named s.sessions (with_ctx a k p s).sessions id s.clients (λ b. ground arith))

  run_adds :
      (a : ℕ) (k : Text) (p : Option Iface) (s : Server W) (o : Option (Option Iface))
      → at k (s.sessions a).ctx ≡ o
      → viewed (run (adds a k p) s) ≡ perform (adds a k p) (view s)
  unfolding viewed run add_context modify view with_ctx
  run_adds a k p s none new =
      let lacks : has k (s.sessions a).ctx ≡ false = rw (has-at k (s.sessions a).ctx, new) in
      rw (lacks, add_context) (ap (λ (c : Contexts). (fine, c)) (added a k p s new))
      ∙ sym (perform-adds a k p (view s) none new)
  run_adds a k p s (some old) e =
      let there : has k (s.sessions a).ctx ≡ true = rw (has-at k (s.sessions a).ctx, e) in
      rw (there, add_context) (sym (perform-adds a k p (view s) (some old) e))

  run-perform : (op : Op) (s : Server W) → viewed (run op s) ≡ perform op (view s)
  unfolding viewed run perform view add_context attach_env get_context context_owner
  run-perform (adds a k p) s = run_adds a k p s (at k (s.sessions a).ctx) refl
  run-perform (attaches a id) s = elim (Option-cases (find_by_id s.sessions id s.clients)) [
    | inl e ↦ rw (e, attach_env, perform)
    | inr (b, e) ↦
        rw (e, attach_env, perform)
          (ap (λ (c : Contexts). (fine, c))
            (contexts_ext _ _ (λ d j. ground arith) (λ d. ground arith)
              (λ i.
                same_named s.sessions
                  (update s.sessions a (record (s.sessions a) { attached = some b })) i s.clients
                  (λ d. ground arith))))
  ]
  run-perform (looks_up a k) s = refl

  -- Any operations AddContext, AttachEnv and lookups, on whichever sessions, give what partial
  -- functions from handles to interfaces give, of which an attached session uses those of another,
  -- and the state of the server stands for the functions behind them.
  pub run_all-refines :
      (ops : List Op) (s : Server W)
      → perform_all ops (view s) ≡ ((run_all ops s).0, view (run_all ops s).1)
  unfolding perform_all run_all viewed view
  run_all-refines [] s = refl
  run_all-refines (op ∷ ops) s = rw (← run-perform op s, run_all-refines ops (run op s).1)
