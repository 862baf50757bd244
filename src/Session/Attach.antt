-- ===== src/Session/Attach.antt =====
-- GetId, AttachEnv and the contexts of an attached session.
use fap2_srv.Prelude.{
  ℕ, ◌≤◌, Text, codes, at, has, has-at, insert, at-insert, text_eq_self, true, false, ◌∙◌, ap,
  text_key, ℤ, pos, int_max, extract_int, extract_int-print_int, Option, none, some, List, [], ◌∷◌,
  ◌++◌, ◌≡◌, refl, arith,
}
use fap2_srv.Fap.{Fap, Outcome, ok, threw}
use fap2_srv.Server.{Iface, Session, Server, after, modify}
use fap2_srv.Registry.Counts.{count_id}
use fap2_srv.Session.Shared.{attached_context}
use fap2_srv.Session.{
  find_by_id, pointer, get_context, add_context, get_id, attach_env, provide, int_or,
}

find_by_id-append :
    (heap : ℕ → Session) (k b : ℕ) (xs ys : List ℕ)
    → count_id heap k xs ≡ 0
    → (heap b).id ≡ k
    → find_by_id heap (pos k) (xs ++ b ∷ ys) ≡ some b
unfolding find_by_id
find_by_id-append heap k b [] ys h e = ground arith
find_by_id-append heap k b (x ∷ xs) ys h e = ground (arith, find_by_id-append heap k b xs ys)

module _ {W : Type 0} where
  attach_env-found :
      (a b : ℕ) (s : Server W) (id : ℤ)
      → find_by_id s.sessions id s.clients ≡ some b
      → (k : Text)
      → ((attach_env a id s).0 ≡ ok tt)
        × (get_context a k (attach_env a id s).1 ≡ pointer (at k (s.sessions b).ctx))
  unfolding attach_env get_context
  attach_env-found a b s id e k = rw (e, attach_env) (ground arith)

  attach_env-missing :
      (a : ℕ) (s : Server W) (id : ℤ)
      → find_by_id s.sessions id s.clients ≡ none
      → (attach_env a id s).1 ≡ s
  unfolding attach_env
  attach_env-missing a s id e = rw (e, attach_env)

  attach_env-attached :
      (a b : ℕ) (s : Server W) (id : ℤ)
      → find_by_id s.sessions id s.clients ≡ some b
      → let t = (attach_env a id s).1 in
        ((t.sessions a).attached ≡ some b) × ((t.sessions b).ctx ≡ (s.sessions b).ctx)
  unfolding attach_env
  attach_env-attached a b s id e = rw (e, attach_env) (ground arith, ground arith)

  bound_there :
      (a b : ℕ) (key : Text) (p : Option Iface) (t : Server W)
      → (t.sessions a).attached ≡ some b
      → has key (t.sessions b).ctx ≡ false
      → get_context a key (modify b (λ c. record c { ctx = insert key p c.ctx }) t).1 ≡ p
  unfolding modify
  bound_there a b key p t att new =
      attached_context a b key p _ (ground (arith, att))
        (ground (arith, at-insert key key p (t.sessions b).ctx new, text_eq_self key))

  -- What an attached session finds under a key that the other one is given.
  grows_with :
      (a b : ℕ) (key : Text) (p : Option Iface) (t : Server W) (r : Option (Option Iface))
      → (t.sessions a).attached ≡ some b
      → at key (t.sessions b).ctx ≡ r
      → get_context a key (add_context b key p t).1 ≡ elim r [ none ↦ p | some q ↦ q ]
  unfolding add_context
  grows_with a b key p t none att e =
      let new : has key (t.sessions b).ctx ≡ false = has-at key (t.sessions b).ctx ∙ rw e refl in
      rw new (bound_there a b key p t att new)
  grows_with a b key p t (some q) att e =
      let old : has key (t.sessions b).ctx ≡ true = has-at key (t.sessions b).ctx ∙ rw e refl in
      rw old (attached_context a b key q t att e)

module _ {W : Type 0} (fap : Fap W) where
  provide_attach :
      (a : ℕ) (arg : Text) (s : Server W)
      → provide fap a (codes "AttachEnv") (arg ∷ []) s
        ≡ after
            (attach_env a (int_or (extract_int arg) fap.uninit_int) s)
            (λ _ t. (ok (none, []), t))
  unfolding provide
  provide_attach a arg s = refl

  after_attach :
      (a b : ℕ) (k key : Text) (p : Option Iface) (r : Outcome (Unit {0}) × Server W) (s : Server W)
      → (r.0 ≡ ok tt) × (get_context a k r.1 ≡ pointer (at k (s.sessions b).ctx))
      → ((r.1.sessions a).attached ≡ some b) × ((r.1.sessions b).ctx ≡ (s.sessions b).ctx)
      → let t = after {B = Option Iface × Text} r (λ _ u. (ok (none, []), u)) in
        (t.0 ≡ ok (none, []))
        × (get_context a k t.1 ≡ pointer (at k (s.sessions b).ctx))
        × (get_context a key (add_context b key p t.1).1
            ≡ elim (at key (s.sessions b).ctx) [ none ↦ p | some q ↦ q ])
  after_attach a b k key p (ok done, u) s h f =
      (refl, h.1, grows_with a b key p u _ f.0 (ap (at key) f.1))
  after_attach a b k key p (threw e, u) s h f = absurd (cc (h.0))

  -- The text that GetId gives for a session of the list of clients, before which no entry has its
  -- id, makes AttachEnv of any session succeed; right after it, each context looked up by that
  -- session is the one in the map of the session that it is attached to, and a context that this
  -- one is given next is found by it too.
  pub attach_by_get_id :
      (a b : ℕ) (k key : Text) (p : Option Iface) (s : Server W) (xs ys : List ℕ)
      → s.clients ≡ xs ++ b ∷ ys
      → count_id s.sessions (s.sessions b).id xs ≡ 0
      → (s.sessions b).id ≤ int_max
      → let t = provide fap a (codes "AttachEnv") (get_id b s ∷ []) s in
        (t.0 ≡ ok (none, []))
        × (get_context a k t.1 ≡ pointer (at k (s.sessions b).ctx))
        × (get_context a key (add_context b key p t.1).1
            ≡ elim (at key (s.sessions b).ctx) [ none ↦ p | some q ↦ q ])
  unfolding get_id
  attach_by_get_id a b k key p s xs ys listed first small =
      let found : find_by_id s.sessions (pos (s.sessions b).id) s.clients ≡ some b =
        rw (listed, find_by_id-append s.sessions (s.sessions b).id b xs ys first refl) refl in
      rw (provide_attach a (get_id b s) s, extract_int-print_int (s.sessions b).id small)
        (after_attach a b k key p _ s (attach_env-found a b s (pos (s.sessions b).id) found k)
          (attach_env-attached a b s (pos (s.sessions b).id) found))
