-- ===== src/Threads/Buffer.antt =====
-- The receive buffer of a session's thread.
use fap2_srv.Prelude.{
  ℕ, suc, ◌-◌, ◌≤◌, ◌<◌, ◌||◌, if◌then◌else◌, ltb, Text, c_str, c_string-append, c_string_lem,
  length-c_str-le, one_of, take, take_all, length, replicate, none, some, [], ◌∷◌, Bool-cases, ◌≡◌,
  inl, inr, ap, arith, append-nil,
}
use fap2_srv.Threads.{buffer_size, message_size, read_message}

padding :
    (n : ℕ) → n < buffer_size → replicate {A = ℕ} (buffer_size - n) 0 ≡ 0 ∷ replicate (230 - n) 0
padding n h = let e : buffer_size - n ≡ suc (230 - n) = omega arith in rw e

no_padding : (n : ℕ) → buffer_size ≤ n → replicate {A = ℕ} (buffer_size - n) 0 ≡ []
no_padding n h = let e : buffer_size - n ≡ 0 = omega arith in rw e

short :
    (bytes : Text)
    → length bytes ≤ buffer_size
    → take (message_size - 1) (c_str bytes) ≡ c_str bytes
short bytes h = take_all (message_size - 1) (c_str bytes) (omega (arith, length-c_str-le bytes))

-- The thread reads the bytes up to the first NUL as its message, whole, unless they fill the
-- buffer without a NUL: only then is memory behind the buffer read.
pub read_message_lem :
    (bytes : Text)
    → length bytes ≤ buffer_size
    → read_message bytes
      ≡ (if ltb (length bytes) buffer_size || one_of bytes 0 then some (c_str bytes) else none)
unfolding read_message
read_message_lem bytes h = elim (Bool-cases (ltb (length bytes) buffer_size)) [
  | inl less ↦
      rw (less, padding (length bytes) (ground arith), c_string-append bytes _)
        (ap (λ (t : Text). some t) (short bytes h))
  | inr full ↦
      rw (full, no_padding (length bytes) (ground arith), append-nil bytes)
        (rw (c_string_lem bytes) (ground (arith, short bytes h)))
]
