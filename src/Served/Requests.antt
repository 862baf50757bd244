-- ===== src/Served/Requests.antt =====
-- A request of the client and what the session of the server answers.
use fap2_srv.Prelude.{
  ℕ, ◌≤◌, if◌then◌else◌, Text, codes, c_str, c_str_lem, Avoids, has, text_key, Option, none, some,
  Bool-cases, inl, inr, List, [], ◌∷◌, ◌++◌, append-nil, Bool, true, false, length, take, drop,
  take_all, drop_all, drop-append, ◌≡◌, refl, ap, ◌∙◌, subst, arith,
}
use fap2_srv.Requests.{res_ok, res_error}
use fap2_srv.Fap.{Fap, Outcome, ok, threw}
use fap2_srv.Server.{Iface, Server}
use fap2_srv.Session.{get_context, call, uid}
use fap2_srv.Session.Frame.{Frame}
use fap2_srv.Handler.{or_ok, respond, catching}
use fap2_srv.Handler.Answers.{packet, respond_new, respond_old, target, call-Frame}
use fap2_srv.Threads.{again, received, settle, turn}
use fap2_srv.Client.{returned, length_error, BaseClient, parse_response, take_response, request}
use fap2_srv.Client.Wire.{IsRequest, handled, read_request}
use fap2_srv.Served.{Line, carried, line_send, line}

-- The status and the text that a call is to be answered with; `none` where its interface has a Uid
-- that is a context already.
unfoldable pub answer :
    {W : Type 0} → Fap W → ℕ → Outcome (Option Iface × Text) → Server W → Option (Bool × Text)
unfolding uid has
answer fap a (threw what) t = some (false, what)
answer fap a (ok (none, res)) t = some (true, or_ok res)
answer fap a (ok (some i, res)) t =
    if has (uid fap i t) (t.sessions a).ctx then none else some (true, uid fap i t)

-- The word of a status.
abbrev pub word : Bool → Text
word true = res_ok
word false = res_error

module _ {W : Type 0} (fap : Fap W) where
  answered :
      (a : ℕ) (r : Outcome (Option Iface × Text)) (t : Server W) (st : Bool) (args : Text)
      → answer fap a r t ≡ some (st, args)
      → ((catching fap a (r, t)).0 ≡ ok tt)
        × ((catching fap a (r, t)).1.sent
            ≡ t.sent ++ ((t.sessions a).sock, packet (word st) args) ∷ [])
  unfolding answer catching
  answered a (threw what) t st args e = ground arith
  answered a (ok (none, res)) t st args e = ground arith
  answered a (ok (some i, res)) t st args e =
      elim (Bool-cases (has (uid fap i t) (t.sessions a).ctx)) [
        | inl old ↦ absurd (cc (rw old at e))
        | inr new ↦
            let same : (true, uid fap i t) ≡ (st, args) = cc (rw new at e) in
            subst
              (λ (x : Bool × Text).
                ((respond fap a (some i, res) t).0 ≡ ok tt)
                × ((respond fap a (some i, res) t).1.sent
                    ≡ t.sent ++ ((t.sessions a).sock, packet (word x.0) x.1) ∷ []))
              same (respond_new fap a i res t new)
      ]

  refused :
      (a : ℕ) (r : Outcome (Option Iface × Text)) (t : Server W)
      → answer fap a r t ≡ none
      → catching fap a (r, t) ≡ (threw (codes "Context already exists"), t)
  unfolding answer catching
  refused a (threw what) t e = cc
  refused a (ok (none, res)) t e = cc
  refused a (ok (some i, res)) t e = elim (Bool-cases (has (uid fap i t) (t.sessions a).ctx)) [
    | inl old ↦ respond_old fap a i res t old
    | inr new ↦ absurd (cc (rw new at e))
  ]

  -- A round of the session on a request.
  turned :
      (a : ℕ) (ctx spec : Text) (i : Iface) (s t : Server W) (r : Outcome (Option Iface × Text))
      → IsRequest ctx spec
      → get_context a ctx s ≡ some i
      → call fap i spec s ≡ (r, t)
      → turn fap a (received (ctx ++ 32 ∷ spec)) s ≡ settle (catching fap a (r, t))
  unfolding turn
  turned a ctx spec i s t r h found e =
      rw (read_request ctx spec h, turn, handled fap a ctx spec i s t r h found e)

  settle-ok : (r : Outcome (Unit {0}) × Server W) → r.0 ≡ ok tt → settle r ≡ again r.1
  settle-ok (ok done, s) e = refl
  settle-ok (threw what, s) e = cc

  call-sent :
      (a : ℕ) (spec : Text) (i : Iface) (s t : Server W) (r : Outcome (Option Iface × Text))
      → call fap i spec s ≡ (r, t)
      → (t.sent ≡ s.sent) × ((t.sessions a).sock ≡ (s.sessions a).sock)
  call-sent a spec i s t r e =
      let f =
        subst (Frame a (target i a) s)
          (ap (λ (x : Outcome (Option Iface × Text) × Server W). x.1) e)
          ((call-Frame fap a i spec).at s) in
      (f.sent, f.sock a)

read_packet :
    (st : Bool) (args : Text)
    → Avoids (0 ∷ []) args
    → length args ≤ 510
    → (take 512 (packet (word st) args) ≡ packet (word st) args)
      × (drop 512 (packet (word st) args) ≡ [])
      × (parse_response (packet (word st) args) ≡ returned (st, args))
unfolding parse_response c_str
read_packet true args clean short =
    rw (c_str_lem args clean)
      (ap (λ (t : Text). 79 ∷ 32 ∷ t) (take_all 510 args short), drop_all 510 args short, refl)
read_packet false args clean short =
    rw (c_str_lem args clean)
      (ap (λ (t : Text). 69 ∷ 32 ∷ t) (take_all 510 args short), drop_all 510 args short, refl)

-- A request that the client can make on an object behind a context, over an open line, and what the
-- call that it asks for does.
pub record Made {W : Type 0} (fap : Fap W) (a : ℕ) (ctx spec : Text) (n : Line W)
    (r : Outcome (Option Iface × Text)) (t : Server W) : Type 0 where
  pub iface : Iface
  pub up : n.up ≡ true
  pub form : IsRequest ctx spec
  pub found : get_context a ctx n.server ≡ some iface
  pub called : call fap iface spec n.server ≡ (r, t)

module _ {W : Type 0} (fap : Fap W) where
  arrived :
      (n : Line W) (u : Server W) (sock : ℕ) (bytes : Text)
      → u.sent ≡ n.server.sent ++ (sock, bytes) ∷ []
      → (carried n (again u)).inbox ≡ n.inbox ++ bytes
  arrived n u sock bytes sent =
      rw (sent, drop-append n.server.sent ((sock, bytes) ∷ []), append-nil bytes)

  -- What a request of the client gives: what the first 512 bytes are read as, of those that were
  -- left from before and the packet of the answer. The others are left.
  pub request_bytes :
      (a : ℕ) (c : BaseClient) (ctx spec : Text) (n : Line W) (r : Outcome (Option Iface × Text))
      (t : Server W) (st : Bool) (args : Text)
      → Made fap a ctx spec n r t
      → answer fap a r t ≡ some (st, args)
      → let stream = n.inbox ++ packet (word st) args in
        request (line fap a) c (ctx ++ 32 ∷ spec) n ≡ (
          parse_response (take 512 stream),
          record n { server = (catching fap a (r, t)).1; inbox = drop 512 stream },
        )
  unfolding request line_send take_response
  request_bytes a c ctx spec n r t st args m e =
      let (fine, sent) = answered fap a r t st args e in
      let (same, sock) = call-sent fap a spec m.iface n.server t r m.called in
      let there = arrived n (catching fap a (r, t)).1 _ _ (
        sent
        ∙ ap (λ (x : List (ℕ × Text)). x ++ ((t.sessions a).sock, packet (word st) args) ∷ [])
            same) in
      rw
        (
          m.up,
          turned fap a ctx spec m.iface n.server t r m.form m.found m.called,
          settle-ok fap (catching fap a (r, t)) fine,
        )
        (rw there)

  -- A request that the server answers is returned to the client with the status and the text of the
  -- answer, and nothing is left to read.
  pub request_served :
      (a : ℕ) (c : BaseClient) (ctx spec : Text) (n : Line W) (r : Outcome (Option Iface × Text))
      (t : Server W) (st : Bool) (args : Text)
      → n.inbox ≡ []
      → Made fap a ctx spec n r t
      → answer fap a r t ≡ some (st, args)
      → Avoids (0 ∷ []) args
      → length args ≤ 510
      → request (line fap a) c (ctx ++ 32 ∷ spec) n
        ≡ (returned (st, args), record n { server = (catching fap a (r, t)).1 })
  request_served a c ctx spec n r t st args empty m e clean short =
      let (all, left, parsed) = read_packet st args clean short in
      request_bytes a c ctx spec n r t st args m e ∙ rw (empty, all, left, parsed)

  -- A request whose interface is a context already ends the server, and the client throws.
  pub request_fatal :
      (a : ℕ) (c : BaseClient) (ctx spec : Text) (n : Line W) (r : Outcome (Option Iface × Text))
      (t : Server W)
      → n.inbox ≡ []
      → Made fap a ctx spec n r t
      → answer fap a r t ≡ none
      → request (line fap a) c (ctx ++ 32 ∷ spec) n
        ≡ (length_error, record n { server = t; up = false })
  unfolding request line_send take_response parse_response
  request_fatal a c ctx spec n r t empty m e = rw (
    m.up,
    turned fap a ctx spec m.iface n.server t r m.form m.found m.called,
    refused fap a r t e,
    empty,
  )
