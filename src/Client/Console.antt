-- ===== src/Client/Console.antt =====
-- client/bclient.cpp: Dispatch, the loop of the test client over the console.
use fap2_srv.Prelude.{
  ℕ, ◌-◌, Text, codes, c_str, c_string, Option, none, some, List, [], ◌∷◌, ◌++◌, Bool, true, false,
  length, replicate,
}
use fap2_srv.Client.{Net, BaseClient}

-- The size of `buffer`.
abbrev pub console_size : ℕ
console_size = 256

-- What a round writes: the errors, and what printf prints, or `none` where the buffer holds no NUL,
-- so that memory behind it is printed.
pub record Shown : Type 0 where
  pub errors : List Text
  pub printed : Option Text

-- The text that fgets left in the cleared buffer; `none` is the end of the input.
abbrev pub entered : Option Text → Text
entered none = []
entered (some input) = c_str input

-- The buffer after recv, as printf reads it.
unfoldable pub reply_text : Option Text → Option Text
unfolding c_string
reply_text none = some []
reply_text (some bytes) = c_string (bytes ++ replicate (console_size - length bytes) 0)

abbrev pub note_unless : Bool → Text → List Text
note_unless true text = []
note_unless false text = text ∷ []

abbrev pub arrived : Option Text → Bool
arrived none = false
arrived (some bytes) = true

module _ {N : Type 0} (net : Net N) where
  -- A round of the loop, which goes on after errors.
  unfoldable pub console_round : BaseClient → Option Text → N → Shown × N
  unfolding c_str reply_text
  console_round c input n =
      let (sent, n1) = net.send c.sock (entered input) n in
      let (got, n2) = net.recv c.sock console_size n1 in
      (
        record {
          errors =
              note_unless sent (codes "ERROR writing to socket")
              ++ note_unless (arrived got) (codes "ERROR reading from socket");
          printed = reply_text got;
        },
        n2,
      )

  -- BaseClient::Dispatch on lines of input, one round for each; the loop itself never ends.
  unfoldable pub console : BaseClient → List (Option Text) → N → List Shown × N
  unfolding console_round
  console c [] n = ([], n)
  console c (input ∷ inputs) n =
      let (shown, m) = console_round c input n in
      let (rest, o) = console c inputs m in (shown ∷ rest, o)
