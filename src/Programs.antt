-- ===== src/Programs.antt =====
-- client/client_example.c and server/server_example.c: a client and a server that exchange one
-- message, over the socket calls of the system.
use fap2_srv.Prelude.{
  ℕ, if◌then◌else◌, Text, codes, c_str, take, Option, none, some, List, [], ◌∷◌, ◌++◌, Bool,
}

-- The calls of the system; `none` and `false` stand for a negative result.
pub record Calls (N : Type 0) : Type 0 where
  pub socket : N → Option ℕ × N
  pub resolve : Text → N → Bool × N
  pub connect : ℕ → Text → N → Bool × N
  pub bind : ℕ → Text → N → Bool × N
  pub accept : ℕ → N → Option ℕ × N
  pub read : ℕ → ℕ → N → Option Text × N
  pub write : ℕ → Text → N → Bool × N

-- How a program ends: the value of exit or of the return from main, and what it wrote.
pub record Ended : Type 0 where
  pub code : ℕ
  pub written : List Text

-- fprintf and exit, or perror and exit.
abbrev pub stop : {N : Type 0} → ℕ → Text → List Text → N → Ended × N
stop code text written n = (record { code = code; written = written ++ text ∷ [] }, n)

-- "usage %s hostname port", of the name of the program; NULL without any argument.
abbrev pub usage : Text → Text
usage name = codes "usage " ++ name ++ codes " hostname port"

-- What is read into a cleared buffer, as a C string.
abbrev pub buffered : Text → Text
buffered bytes = c_str (take 255 bytes)

module _ {N : Type 0} (sys : Calls N) where
  -- The client, from the message on: it is written, and one reply is
  -- read and printed; fgets keeps at most 254 characters of what was typed.
  unfoldable pub client_exchange : ℕ → Text → N → Ended × N
  unfolding c_str
  client_exchange sock input n =
      let (wrote, n1) = sys.write sock (c_str (take 254 input)) n in
      let (got, n2) = sys.read sock 255 n1 in
      if wrote
      then elim got [
        | none ↦
            stop 0 (codes "ERROR reading from socket") (codes "Please enter the message: " ∷ []) n2
        | some bytes ↦ stop 0 (buffered bytes) (codes "Please enter the message: " ∷ []) n2
      ]
      else stop 0 (codes "ERROR writing to socket") (codes "Please enter the message: " ∷ []) n1

  -- The client, from the socket on.
  unfoldable pub client_connect : Text → Text → Text → ℕ → N → Ended × N
  unfolding client_exchange
  client_connect host port input sock n =
      let (found, n1) = sys.resolve host n in
      let (connected, n2) = sys.connect sock port n1 in
      if found
      then if connected
        then client_exchange sock input n2
        else stop 0 (codes "ERROR connecting") [] n2
      else stop 0 (codes "ERROR, no such host") [] n1

  -- main of client_example.c; the first argument is the name of the program.
  unfoldable pub client_main : List Text → Text → N → Ended × N
  unfolding client_connect
  client_main (name ∷ host ∷ port ∷ rest) input n =
      let (made, n1) = sys.socket n in
      elim made [
        | none ↦ stop 0 (codes "ERROR opening socket") [] n1
        | some sock ↦ client_connect host port input sock n1
      ]
  client_main [] input n = stop 0 (usage (codes "(null)")) [] n
  client_main (name ∷ []) input n = stop 0 (usage name) [] n
  client_main (name ∷ host ∷ []) input n = stop 0 (usage name) [] n

  -- The server, from the accepted connection on: one message is read and answered.
  unfoldable pub server_exchange : ℕ → N → Ended × N
  unfolding c_str
  server_exchange sock n =
      let (got, n1) = sys.read sock 255 n in
      elim got [
        | none ↦ stop 1 (codes "ERROR reading from socket") [] n1
        | some bytes ↦
            let (wrote, n2) = sys.write sock (codes "I got your message") n1 in
            if wrote
            then stop 0 (codes "Here is the message: " ++ buffered bytes) [] n2
            else stop 1 (codes "ERROR writing to socket")
                ((codes "Here is the message: " ++ buffered bytes) ∷ []) n2
      ]

  -- The server, from the socket on.
  unfoldable pub server_listen : Text → ℕ → N → Ended × N
  unfolding server_exchange
  server_listen port sock n =
      let (bound, n1) = sys.bind sock port n in
      let (made, n2) = sys.accept sock n1 in
      if bound
      then elim made [
        | none ↦ stop 1 (codes "ERROR on accept") [] n2
        | some client ↦ server_exchange client n2
      ]
      else stop 1 (codes "ERROR on binding") [] n1

  -- main of server_example.c
  unfoldable pub server_main : List Text → N → Ended × N
  unfolding server_listen
  server_main (name ∷ port ∷ rest) n =
      let (made, n1) = sys.socket n in
      elim made [
        | none ↦ stop 1 (codes "ERROR opening socket") [] n1
        | some sock ↦ server_listen port sock n1
      ]
  server_main [] n = stop 1 (codes "ERROR, no port provided") [] n
  server_main (name ∷ []) n = stop 1 (codes "ERROR, no port provided") [] n
