-- ===== src/Served/Talk.antt =====
-- A client that makes one request after the other.
use fap2_srv.Prelude.{
  ℕ, ◌≤◌, Text, Avoids, Option, some, List, [], ◌∷◌, ◌++◌, map, Bool, length, ◌≡◌, refl,
}
use fap2_srv.Fap.{Fap, Outcome}
use fap2_srv.Server.{Iface, Server}
use fap2_srv.Handler.{catching}
use fap2_srv.Client.{Net, Result, returned, BaseClient, request}
use fap2_srv.Served.{Line, line}
use fap2_srv.Served.Requests.{answer, Made, request_served}

-- The results of requests that a client makes in their order.
unfoldable pub request_each :
    {N : Type 0} → Net N → BaseClient → List Text → N → List (Result (Bool × Text)) × N
unfolding request
request_each net c [] n = ([], n)
request_each net c (text ∷ texts) n =
    let (r, m) = request net c text n in let (rest, o) = request_each net c texts m in (r ∷ rest, o)

-- The bytes of a request on a context.
abbrev pub asking : Text × Text → Text
asking (ctx, spec) = ctx ++ 32 ∷ spec

-- What the server's objects do on the requests, each called in the state that the one before has
-- left, and the answers: each interface has a new Uid, and each text fits into a reply.
pub data Talk {W : Type 0} (fap : Fap W) (a : ℕ)
    : List (Text × Text) → Line W → List (Bool × Text) → Line W → Type 0 where
  quiet : (n : Line W) → Talk fap a [] n [] n
  asks :
      {reqs : List (Text × Text)} {answers : List (Bool × Text)} {m : Line W} (ctx spec : Text)
      (n : Line W) (r : Outcome (Option Iface × Text)) (t : Server W) (st : Bool) (args : Text)
      → Made fap a ctx spec n r t
      → answer fap a r t ≡ some (st, args)
      → Avoids (0 ∷ []) args
      → length args ≤ 510
      → Talk fap a reqs (record n { server = (catching fap a (r, t)).1 }) answers m
      → Talk fap a ((ctx, spec) ∷ reqs) n ((st, args) ∷ answers) m

module _ {W : Type 0} (fap : Fap W) where
  -- A client that makes requests one after the other over an open line with nothing left to read
  -- gets the answer of each to that request, in their order: `true` and the text of the result or
  -- the Uid of the interface, or `false` and the text of the exception, if each request is on a
  -- context that the session has in that state, fits the buffer, is not for an interface whose Uid
  -- is a context, and its text holds no NUL and has at most 510 bytes.
  pub request_each_served :
      (a : ℕ) (c : BaseClient) {reqs : List (Text × Text)} {answers : List (Bool × Text)}
      {n m : Line W}
      → n.inbox ≡ []
      → Talk fap a reqs n answers m
      → request_each (line fap a) c (map asking reqs) n
        ≡ (map (λ (x : Bool × Text). returned x) answers, m)
  unfolding request_each
  request_each_served a c empty (quiet n) = refl
  request_each_served a c empty (asks ctx spec n r t st args made e clean short talk) = rw (
    request_served fap a c ctx spec n r t st args empty made e clean short,
    request_each_served a c empty talk,
  )
