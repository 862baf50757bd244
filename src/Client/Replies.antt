-- ===== src/Client/Replies.antt =====
-- What Request makes of the bytes that arrive, and when sockets are closed.
use fap2_srv.Prelude.{
  ◌<◌, pos, Text, c_str, c_str_lem, Avoids, some, [], ◌∷◌, true, false, length, ◌≡◌, ◌≢◌, ◌↔◌, refl,
  arith,
}
use fap2_srv.Requests.{res_ok, res_error}
use fap2_srv.Handler.Answers.{packet}
use fap2_srv.Client.{
  Net, returned, length_error, BaseClient, parse_response, take_response, request, disconnect,
  destroy,
}

-- A packet of the server with no NUL in its argument is read back as its status and its argument.
pub parse-packet :
    (args : Text)
    → Avoids (0 ∷ []) args
    → (parse_response (packet res_ok args) ≡ returned (true, args))
      × (parse_response (packet res_error args) ≡ returned (false, args))
unfolding parse_response c_str
parse-packet args h = rw (c_str_lem args h) (refl, refl)

-- The client throws out of Request exactly when fewer than two bytes arrive.
parse_response-length_error :
    (bytes : Text) → (parse_response bytes ≡ length_error) ↔ (length bytes < 2)
unfolding parse_response
parse_response-length_error [] = (λ h. omega arith, λ h. refl)
parse_response-length_error (c ∷ []) = (λ h. omega arith, λ h. refl)
parse_response-length_error (c ∷ d ∷ rest) = (λ h. absurd (cc), λ h. absurd (omega arith))

module _ {N : Type 0} (net : Net N) where
  -- A request whose bytes were sent throws exactly if fewer than two bytes are received; a server
  -- that closes the connection gives none.
  pub request-length_error :
      (c : BaseClient) (text bytes : Text) (n : N)
      → (net.send c.sock text n).0 ≡ true
      → (net.recv c.sock 512 (net.send c.sock text n).1).0 ≡ some bytes
      → ((request net c text n).0 ≡ length_error) ↔ (length bytes < 2)
  unfolding request take_response
  request-length_error c text bytes n sent got = rw (sent, got) (parse_response-length_error bytes)

  -- Whatever the client was used for, the destructor closes its socket once if it was not closed
  -- by Disconnect, and not again if it was.
  pub destroy-closes_once :
      (c : BaseClient) (n : N)
      → c.sock ≢ pos 0
      → ((destroy net c n).1 ≡ net.close c.sock n)
        × ((destroy net (disconnect net c n).0 (disconnect net c n).1).1 ≡ net.close c.sock n)
        × ((destroy net c n).0.sock ≡ pos 0)
  unfolding destroy disconnect
  destroy-closes_once c n h = ground arith
