-- ===== src/Client/Wire.antt =====
-- A request from the client through the session's thread and back.
use fap2_srv.Prelude.{
  ℕ, suc, ◌+◌, ◌<◌, lt→ltb, Text, c_str_lem, Avoids, find_first_of, find_first-append, drop,
  take-append, length, Option, none, some, [], ◌∷◌, ◌++◌, Bool, true, false, ◌≡◌, refl, ap, subst,
  arith,
}
use fap2_srv.Requests.{req_separator, res_ok, res_error}
use fap2_srv.Fap.{Fap, Outcome, ok, threw}
use fap2_srv.Server.{Iface, Server}
use fap2_srv.Session.{get_context, call}
use fap2_srv.Session.Frame.{Frame}
use fap2_srv.Handler.{or_ok, catching, dispatch, with_end, handle_message}
use fap2_srv.Handler.Answers.{packet, target, call-Frame}
use fap2_srv.Threads.{again, received, settle, read_message, turn}
use fap2_srv.Threads.Buffer.{read_message_lem}
use fap2_srv.Client.{returned, parse_response}
use fap2_srv.Client.Replies.{parse-packet}

-- A call that returned text and no interface, or threw.
abbrev pub plain : Outcome Text → Outcome (Option Iface × Text)
plain (ok res) = ok (none, res)
plain (threw what) = threw what

-- What the client is to be told of it: the status and the text.
abbrev pub told : Outcome Text → Bool × Text
told (ok res) = (true, or_ok res)
told (threw what) = (false, what)

-- A request that the client can make: a context id, the separator and a call.
pub record IsRequest (ctx spec : Text) : Type 0 where
  pub some_id : 0 < length ctx
  pub one_word : Avoids req_separator ctx
  pub clean : Avoids (0 ∷ []) (ctx ++ 32 ∷ spec)
  pub fits : length (ctx ++ 32 ∷ spec) < 231

split_request :
    (ctx spec : Text)
    → Avoids req_separator ctx
    → find_first_of req_separator (ctx ++ 32 ∷ spec) 0 ≡ some (length ctx)
unfolding find_first_of
split_request ctx spec h =
    rw (find_first-append req_separator ctx spec 32 h refl) (ap (λ (n : ℕ). some n) (omega arith))

drop_past : (ctx spec : Text) → drop (suc (length ctx)) (ctx ++ 32 ∷ spec) ≡ spec
drop_past [] spec = refl
drop_past (c ∷ ctx) spec = drop_past ctx spec

rest_of_request : (ctx spec : Text) → drop (length ctx + 1) (ctx ++ 32 ∷ spec) ≡ spec
rest_of_request ctx spec =
    let e : length ctx + 1 ≡ suc (length ctx) = omega arith in rw e (drop_past ctx spec)

pub read_request :
    (ctx spec : Text)
    → IsRequest ctx spec
    → read_message (ctx ++ 32 ∷ spec) ≡ some (ctx ++ 32 ∷ spec)
read_request ctx spec h =
    rw (read_message_lem (ctx ++ 32 ∷ spec) (omega (arith, h.fits)), lt→ltb _ _ h.fits)
      (ap (λ (t : Text). some t) (c_str_lem (ctx ++ 32 ∷ spec) h.clean))

module _ {W : Type 0} (fap : Fap W) where
  pub handled :
      (a : ℕ) (ctx spec : Text) (i : Iface) (s t : Server W) (r : Outcome (Option Iface × Text))
      → IsRequest ctx spec
      → get_context a ctx s ≡ some i
      → call fap i spec s ≡ (r, t)
      → handle_message fap a (ctx ++ 32 ∷ spec) s ≡ catching fap a (r, t)
  unfolding handle_message with_end dispatch
  handled a [] spec i s t r h found e = absurd (omega (arith, h.some_id))
  handled a (c ∷ ctx) spec i s t r h found e =
      rw (split_request (c ∷ ctx) spec h.one_word, with_end)
        (rw (take-append (c ∷ ctx) (32 ∷ spec), found, dispatch)
          (rw (rest_of_request (c ∷ ctx) spec, e)))

  -- The end of a request whose call gave no interface.
  settled :
      (a : ℕ) (s t : Server W) (r : Outcome Text)
      → t.sent ≡ s.sent
      → (t.sessions a).sock ≡ (s.sessions a).sock
      → Avoids (0 ∷ []) (told r).1
      → (u : Server W) × (bytes : Text) × (settle (catching fap a (plain r, t)) ≡ again u)
        × (u.sent ≡ s.sent ++ ((s.sessions a).sock, bytes) ∷ [])
        × (parse_response bytes ≡ returned (told r))
  unfolding catching
  settled a s t (ok res) sent sock clean =
      (_, packet res_ok (or_ok res), refl, rw (sent, sock), (parse-packet (or_ok res) clean).0)
  settled a s t (threw what) sent sock clean =
      (_, packet res_error what, refl, rw (sent, sock), (parse-packet what clean).1)

  -- A request that fits the server's buffer, made on a context of the session, reaches its object
  -- with the call as the client wrote it, and the client gets the text of the result with `true`,
  -- or of the exception with `false`, if that holds no NUL and the call gives no interface.
  pub turn-round_trip :
      (a : ℕ) (ctx spec : Text) (i : Iface) (s t : Server W) (r : Outcome Text)
      → IsRequest ctx spec
      → get_context a ctx s ≡ some i
      → call fap i spec s ≡ (plain r, t)
      → Avoids (0 ∷ []) (told r).1
      → (u : Server W) × (bytes : Text) × (turn fap a (received (ctx ++ 32 ∷ spec)) s ≡ again u)
        × (u.sent ≡ s.sent ++ ((s.sessions a).sock, bytes) ∷ [])
        × (parse_response bytes ≡ returned (told r))
  unfolding turn
  turn-round_trip a ctx spec i s t r h found e clean =
      let f =
        subst (Frame a (target i a) s)
          (ap (λ (x : Outcome (Option Iface × Text) × Server W). x.1) e)
          ((call-Frame fap a i spec).at s) in
      rw (read_request ctx spec h, turn, handled a ctx spec i s t (plain r) h found e)
        (settled a s t r f.sent (f.sock a) clean)
