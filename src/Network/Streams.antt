-- ===== src/Network/Streams.antt =====
-- The bytes of a stream of packets, and what one packet more adds.
use fap2_srv.Prelude.{
  ℕ, ◌==◌, Text, List, [], ◌∷◌, ◌++◌, Bool-cases, inl, inr, true, false, append-nil, append_assoc,
  ◌≡◌, refl, sym, ap, ◌∙◌,
}
use fap2_srv.Threads.Conversation.{only}
use fap2_srv.Served.{bytes_of}
use fap2_srv.Network.{stream}

module _ {A : Type 0} (socket : A → ℕ) (k : ℕ) where
  pub only-append :
      (xs ys : List A) → only socket k (xs ++ ys) ≡ only socket k xs ++ only socket k ys
  unfolding only
  only-append [] ys = refl
  only-append (x ∷ xs) ys = elim (Bool-cases (socket x == k)) [
    | inl same ↦ rw same (ap (λ (zs : List A). x ∷ zs) (only-append xs ys))
    | inr other ↦ rw other (only-append xs ys)
  ]

  pub only_same : (x : A) → (socket x == k) ≡ true → only socket k (x ∷ []) ≡ x ∷ []
  unfolding only
  only_same x same = rw same refl

  pub only_other : (x : A) → (socket x == k) ≡ false → only socket k (x ∷ []) ≡ []
  unfolding only
  only_other x other = rw other refl

pub bytes_of-append : (xs ys : List (ℕ × Text)) → bytes_of (xs ++ ys) ≡ bytes_of xs ++ bytes_of ys
bytes_of-append [] ys = refl
bytes_of-append ((sock, bytes) ∷ xs) ys =
    ap (λ (t : Text). bytes ++ t) (bytes_of-append xs ys)
    ∙ sym (append_assoc bytes (bytes_of xs) (bytes_of ys))

pub stream-append :
    (k : ℕ) (xs ys : List (ℕ × Text)) → stream k (xs ++ ys) ≡ stream k xs ++ stream k ys
stream-append k xs ys =
    ap bytes_of (only-append (λ p. p.0) k xs ys)
    ∙ bytes_of-append (only (λ p. p.0) k xs) (only (λ p. p.0) k ys)

pub stream_same : (k : ℕ) (p : ℕ × Text) → (p.0 == k) ≡ true → stream k (p ∷ []) ≡ p.1
stream_same k p same = ap bytes_of (only_same (λ q. q.0) k p same) ∙ append-nil p.1

pub stream_other : (k : ℕ) (p : ℕ × Text) → (p.0 == k) ≡ false → stream k (p ∷ []) ≡ []
stream_other k p other = ap bytes_of (only_other (λ q. q.0) k p other)
