-- ===== src/Client.antt =====
-- client/bclient.h and client/bclient.cpp: the client side of the protocol over a socket.
pub mod Replies
pub mod Wire
pub mod Console
pub mod Main
use fap2_srv.Prelude.{
  ℕ, ◌==◌, ℤ, pos, is_nat, if◌then◌else◌, Text, codes, Option, none, some, List, [], ◌∷◌, ◌++◌,
  Bool, true, false, not,
}
use fap2_srv.Requests.{req_separator}

-- The socket calls that the client makes, over a state of the network.
pub record Net (N : Type 0) : Type 0 where
  -- socket: the new socket, or a negative number
  pub socket : N → ℤ × N
  -- gethostbyname: was the host found?
  pub resolve : Text → N → Bool × N
  -- connect: did it succeed?
  pub connect : ℤ → N → Bool × N
  -- send: is the result not negative?
  pub send : ℤ → Text → N → Bool × N
  -- recv with the size of the buffer: the bytes, or `none` for a negative result
  pub recv : ℤ → ℕ → N → Option Text × N
  pub close : ℤ → N → N

-- A call of the client that may throw.
pub data Result {ℓ} (A : Type ℓ) : Type ℓ where
  returned : A → Result A
  -- runtime_error
  raised : Text → Result A
  -- std::length_error of a `std::string`
  length_error : Result A

-- mServerSock: 0 stands for no socket, and a negative number for one that was not opened.
pub record BaseClient : Type 0 where
  pub sock : ℤ

abbrev pub local_host : Text
local_host = codes "localhost"

-- KBufSize
abbrev pub buf_size : ℕ
buf_size = 512

-- The end of Request: the two bytes in front are cut off, and n - 2 is converted to a `size_t`,
-- which for n < 2 exceeds the longest string.
unfoldable pub parse_response : Text → Result (Bool × Text)
parse_response [] = length_error
parse_response (c ∷ []) = length_error
parse_response (c ∷ d ∷ rest) = returned (not (c == b'E'), rest)

-- What Request does with what recv gave.
unfoldable pub take_response : Option Text → Result (Bool × Text)
unfolding parse_response
take_response none = returned (false, codes "Error reading from socket")
take_response (some bytes) = parse_response bytes

module _ {N : Type 0} (net : Net N) where
  -- The constructor, which does not look at what socket gave.
  unfoldable pub new_base_client : N → BaseClient × N
  new_base_client n = let (sock, n1) = net.socket n in (record { sock = sock }, n1)

  -- Connect; the uri that it is given is not used.
  unfoldable pub connect : BaseClient → Text → N → Result (Unit {0}) × N
  connect c host_uri n =
      let (found, n1) = net.resolve local_host n in
      let (connected, n2) = net.connect c.sock n1 in
      if found
      then if connected
        then (returned tt, n2)
        else (raised (codes "Error connecting to server"), n2)
      else (raised (codes "Cannot get the host"), n1)

  -- Request(aRequest, aResponse)
  unfoldable pub request : BaseClient → Text → N → Result (Bool × Text) × N
  unfolding take_response
  request c text n =
      let (sent, n1) = net.send c.sock text n in
      let (got, n2) = net.recv c.sock buf_size n1 in
      if sent
      then (take_response got, n2)
      else (returned (false, codes "Error writing to socket"), n1)

  -- Request(aReqId, aReqArgs, aResponse)
  unfoldable pub request_args : BaseClient → Text → Text → N → Result (Bool × Text) × N
  unfolding request
  request_args c id args n = request c ((id ++ req_separator) ++ args) n

  -- Disconnect
  unfoldable pub disconnect : BaseClient → N → BaseClient × N
  disconnect c n = (record { sock = pos 0 }, net.close c.sock n)

  -- The destructor.
  unfoldable pub destroy : BaseClient → N → BaseClient × N
  unfolding disconnect
  destroy c n = if is_nat c.sock 0 then (c, n) else disconnect c n
