-- ===== src/Served/Overlong.antt =====
-- Replies of the server that do not fit the buffer of the client.
use fap2_srv.Prelude.{
  ℕ, Text, c_str, c_str_lem, Avoids, text_key, Option, some, [], ◌∷◌, ◌++◌, Bool, true, false, take,
  drop, ◌≡◌, refl, ap, ◌∙◌,
}
use fap2_srv.Fap.{Fap, Outcome}
use fap2_srv.Server.{Iface, Server}
use fap2_srv.Handler.{catching}
use fap2_srv.Handler.Answers.{packet}
use fap2_srv.Client.{Result, returned, BaseClient, parse_response, request}
use fap2_srv.Served.Requests.{answer, word, Made, request_bytes}
use fap2_srv.Served.{Line, line}

read_long :
    (st : Bool) (args : Text)
    → Avoids (0 ∷ []) args
    → (parse_response (take 512 (packet (word st) args)) ≡ returned (st, take 510 args))
      × (drop 512 (packet (word st) args) ≡ drop 510 args)
unfolding parse_response c_str
read_long true args clean = rw (c_str_lem args clean) (refl, refl)
read_long false args clean = rw (c_str_lem args clean) (refl, refl)

module _ {W : Type 0} (fap : Fap W) where
  -- Of two requests on contexts that the session has, which fit its buffer and are answered, the
  -- first with a text that holds no NUL and nothing left to read before: the client gets the first
  -- 510 bytes of that text, the rest is left, and the second request gives what that rest is read
  -- as, with its own answer behind it.
  pub request_cut :
      (a : ℕ) (c : BaseClient) (ctx spec ctx' spec' : Text) (n m : Line W)
      (r r' : Outcome (Option Iface × Text)) (t t' : Server W) (st st' : Bool) (args args' : Text)
      → n.inbox ≡ []
      → Made fap a ctx spec n r t
      → answer fap a r t ≡ some (st, args)
      → Avoids (0 ∷ []) args
      → m ≡ record n { server = (catching fap a (r, t)).1; inbox = drop 510 args }
      → Made fap a ctx' spec' m r' t'
      → answer fap a r' t' ≡ some (st', args')
      → (request (line fap a) c (ctx ++ 32 ∷ spec) n ≡ (returned (st, take 510 args), m))
        × ((request (line fap a) c (ctx' ++ 32 ∷ spec') m).0
            ≡ parse_response (take 512 (drop 510 args ++ packet (word st') args')))
  request_cut a c ctx spec ctx' spec' n m r r' t t' st st' args args' empty made e clean f made'
        e' =
      (
        request_bytes fap a c ctx spec n r t st args made e
            ∙ rw (empty, (read_long st args clean).0, (read_long st args clean).1, f),
        ap (λ (x : Result (Bool × Text) × Line W). x.0)
              (request_bytes fap a c ctx' spec' m r' t' st' args' made' e')
            ∙ rw f,
      )
