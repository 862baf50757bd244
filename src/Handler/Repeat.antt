-- ===== src/Handler/Repeat.antt =====
-- A request that returns the same interface again ends the server.
use fap2_srv.Prelude.{
  text_eq-eq, ℕ, suc, ◌+◌, Text, text_eq, text_eq_self, codes, find_first_of, take, drop, has, at,
  insert, has-at, at-insert, text_key, Option, none, some, Bool-cases, inl, inr, true, false, [],
  ◌∷◌, Map, ◌≡◌, arith, sym, ◌∙◌,
}
use fap2_srv.Requests.{req_separator}
use fap2_srv.Fap.{Fap, ok, threw}
use fap2_srv.Server.{Iface, extern, Server}
use fap2_srv.Session.{add_context, get_context, call, uid, context_owner, pointer}
use fap2_srv.Handler.{respond, catching, dispatch, with_end, handle_message}
use fap2_srv.Handler.Answers.{Collides, handle_message-crash}

-- An object of the library whose call always returns one interface, with a Uid that stays.
pub record Returns {W : Type 0} (fap : Fap W) (r j : ℕ) (spec u : Text) : Type 0 where
  pub call : (w : W) → (fap.call r spec w).0 ≡ ok (some j, [])
  pub uid : (w : W) → fap.uid j w ≡ u

pub has-insert :
    (k : Text) (v : Option Iface) (m : Map Text (Option Iface)) → has k (insert k v m) ≡ true
unfolding has insert
has-insert k v [] = ground (arith, text_eq_self k)
has-insert k v ((j, w) ∷ m) = ground (arith, has-insert k v m)

vanished :
    (k u : Text) (m : Map Text (Option Iface)) (i : Iface)
    → pointer (at k m) ≡ some i
    → has u m ≡ false
    → u ≡ k
    → ⊥
vanished k u m i e new same = there (at k m) e (rw same at (sym (has-at u m) ∙ new))
  where
    there :
        (o : Option (Option Iface))
        → pointer o ≡ some i
        → (elim o [ none ↦ false | some v ↦ true ]) ≡ false
        → ⊥
    there none p n = cc
    there (some v) p n = cc

module _ {W : Type 0} (fap : Fap W) where
  pub extern-Returns :
      (r j : ℕ) (spec u : Text) (s : Server W)
      → Returns fap r j spec u
      → call fap (extern r) spec s
        ≡ (ok (some (extern j), []), record s { world = (fap.call r spec s.world).1 })
  unfolding call
  extern-Returns r j spec u s h = rw (h.call s.world)

  -- The state behind the first request.
  pub respond-state :
      (a j : ℕ) (u : Text) (s : Server W)
      → (w : W) → fap.uid j w ≡ u
      → has u (s.sessions a).ctx ≡ false
      → let t = (respond fap a (some (extern j), []) (record s { world = w })).1 in
        ((respond fap a (some (extern j), []) (record s { world = w })).0 ≡ ok tt)
        × ((t.sessions a).ctx ≡ insert u (some (extern j)) (s.sessions a).ctx)
        × ((t.sessions a).attached ≡ (s.sessions a).attached)
  unfolding respond
  respond-state a j u s w e new = rw (e, new, add_context) (ground arith)

  key_taken :
      (k u : Text) (m : Map Text (Option Iface)) (i : Iface)
      → pointer (at k m) ≡ some i
      → has u m ≡ false
      → text_eq u k ≡ false
  key_taken k u m i e new = elim (Bool-cases (text_eq u k)) [
    | inl same ↦ absurd (vanished k u m i e new (text_eq-eq u k same))
    | inr other ↦ other
  ]

  answered :
      (a r j end : ℕ) (msg u : Text) (s : Server W)
      → find_first_of req_separator msg 0 ≡ some (suc end)
      → get_context a (take (suc end) msg) s ≡ some (extern r)
      → Returns fap r j (drop (suc end + 1) msg) u
      → handle_message fap a msg s
        ≡ respond fap a
            (some (extern j), [])
            (record s { world = (fap.call r (drop (suc end + 1) msg) s.world).1 })
  unfolding handle_message with_end dispatch
  answered a r j end msg u s sp found rets =
      rw (sp, with_end)
        (rw (found, dispatch) (rw (extern-Returns r j (drop (suc end + 1) msg) u s rets, catching)))

  pub own_context :
      (a : ℕ) (k : Text) (s : Server W)
      → (s.sessions a).attached ≡ none
      → get_context a k s ≡ pointer (at k (s.sessions a).ctx)
  unfolding get_context context_owner
  own_context a k s alone = rw (alone, context_owner)

  -- A context of the session is still found behind the insertion of a new one.
  pub still_found :
      (a : ℕ) (k u : Text) (i j : Iface) (s t : Server W)
      → (s.sessions a).attached ≡ none
      → (t.sessions a).attached ≡ (s.sessions a).attached
      → (t.sessions a).ctx ≡ insert u (some i) (s.sessions a).ctx
      → has u (s.sessions a).ctx ≡ false
      → get_context a k s ≡ some j
      → get_context a k t ≡ some j
  still_found a k u i j s t alone att ctx new found =
      let own : pointer (at k (s.sessions a).ctx) ≡ some j =
        rw (own_context a k s alone) at found in
      rw (own_context a k t (att ∙ alone), ctx, at-insert u k (some i) (s.sessions a).ctx new)
        (rw (key_taken k u (s.sessions a).ctx j own new) own)

  taken_again :
      (a r j : ℕ) (spec u : Text) (s t : Server W)
      → (t.sessions a).ctx ≡ insert u (some (extern j)) (s.sessions a).ctx
      → Returns fap r j spec u
      → Collides fap a spec (extern r) t
  unfolding uid
  taken_again a r j spec u s t ctx rets = record {
    new_ctx = extern j;
    res = [];
    state = record t { world = (fap.call r spec t.world).1 };
    returned = extern-Returns r j spec u t rets;
    taken = rw (rets.uid _, ctx) (has-insert u (some (extern j)) (s.sessions a).ctx);
  }

  -- The session is attached to no other, the message asks an object of the library for an
  -- interface that it always returns, and that is not a context yet: the first such message is
  -- answered, and the second ends the process.
  pub repeated_request :
      (a r j end : ℕ) (msg u : Text) (s : Server W)
      → find_first_of req_separator msg 0 ≡ some (suc end)
      → (s.sessions a).attached ≡ none
      → get_context a (take (suc end) msg) s ≡ some (extern r)
      → Returns fap r j (drop (suc end + 1) msg) u
      → has u (s.sessions a).ctx ≡ false
      → let t = handle_message fap a msg s in
        (t.0 ≡ ok tt) × ((handle_message fap a msg t.1).0 ≡ threw (codes "Context already exists"))
  repeated_request a r j end msg u s sp alone found rets new =
      let w = (fap.call r (drop (suc end + 1) msg) s.world).1 in
      let (fine, ctx, att) = respond-state a j u s w (rets.uid w) new in
      let t = (respond fap a (some (extern j), []) (record s { world = w })).1 in
      let again : get_context a (take (suc end) msg) t ≡ some (extern r) =
        still_found a (take (suc end) msg) u (extern j) (extern r) s t alone att ctx new found in
      let hit : Collides fap a (drop (suc end + 1) msg) (extern r) t =
        taken_again a r j (drop (suc end + 1) msg) u s t ctx rets in
      rw (answered a r j end msg u s sp found rets)
        (fine, handle_message-crash fap a end msg (extern r) t sp again hit)
