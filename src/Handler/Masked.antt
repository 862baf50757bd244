-- ===== src/Handler/Masked.antt =====
-- The messages of a session on states that differ in sessions which it does not see.
use fap2_srv.Prelude.{ℕ, Text, Bool, true, none, some, ◌≡◌, refl, sym, ap, subst, ◌∙◌, at, text_key}
use fap2_srv.Fap.{Fap}
use fap2_srv.Server.{Iface, session, extern, Session, Server}
use fap2_srv.Server.Related.{Respects}
use fap2_srv.Session.{uid, get_context, context_owner, pointer}
use fap2_srv.Session.Owned.{Owned}
use fap2_srv.Session.Masked.{mask, masked, Masks, masked-Respects, lift-Masks, seen, seen-Matched}
use fap2_srv.Session.Related.{Callable}
use fap2_srv.Handler.Answers.{target}
use fap2_srv.Handler.Isolation.{get_context-target}
use fap2_srv.Handler.Related.{handle_message-Agree}
use fap2_srv.Handler.{reply, handle_message}

module _ {W : Type 0} (fap : Fap W) (sees : ℕ → Bool) (others : ℕ → Session) (a : ℕ)
    (h : sees a ≡ true) where
  reply-Masks : (msg args : Text) → Respects {W = W} (Masks sees others) (reply a msg args)
  unfolding reply
  reply-Masks msg args = masked-Respects sees others (reply a msg args) λ s. rw h refl

  uid-Masks : (i : Iface) (s t : Server W) → Masks sees others s t → uid fap i s ≡ uid fap i t
  unfolding uid
  uid-Masks (session b) s t e = refl
  uid-Masks (extern r) s t e = rw e refl

  get_context-mask :
      (key : Text) (s : Server W)
      → sees (context_owner s.sessions a) ≡ true
      → get_context a key s ≡ get_context a key (mask sees others s)
  unfolding get_context context_owner
  get_context-mask key s k =
      seen sees others (λ c. pointer (at ⦃e = text_key⦄ key c.ctx)) _ s _ refl k
      ∙ ap (λ b. pointer (at ⦃e = text_key⦄ key ((mask sees others s).sessions b).ctx))
          (seen sees others (λ c. elim c.attached [ none ↦ a | some b ↦ b ]) a s _ refl h)

  target-Callable :
      (i : Iface) (o : ℕ) → target i o ≡ o → sees o ≡ true → Callable (lift-Masks sees others) fap i
  target-Callable (session b) o e k =
      seen-Matched sees others b (subst (λ c. sees c ≡ true) (sym e) k)
  target-Callable (extern r) o e k = tt

  -- If no context map points to another session: of the other sessions, what a session is
  -- answered, and all that its message changes, depends only on the one whose contexts it uses and
  -- on the ids; with anything else in place of the sessions that are hidden, the message has the
  -- same outcome and the same end state but for what is hidden, which stays as it is.
  pub handle_message-mask :
      (msg : Text) (s : Server W)
      → Owned s
      → sees (context_owner s.sessions a) ≡ true
      → handle_message fap a msg (mask sees others s)
        ≡ masked sees others (handle_message fap a msg s)
  handle_message-mask msg s w k =
      let agree =
        handle_message-Agree (lift-Masks sees others) fap uid-Masks a (seen-Matched sees others a h)
          reply-Masks s (mask sees others s) refl (λ key. get_context-mask key s k)
          (λ key ctx e. target-Callable ctx _ (get_context-target a key s ctx w e) k) msg in
      λ i. (sym agree.outcome i, agree.states i)
