-- ===== src/Locks/Lookup.antt =====
-- FindSessionClientById of server/sclient.cpp, which AttachEnv calls without the mutex: other threads
-- change the list of clients between the reads of the loop. The id of a session in the list does not
-- change, since SetId comes before push_back.
use fap2_srv.Prelude.{
  ℕ, zero, suc, ◌≤◌, ◌<◌, ltb, ltb→lt, ◌+◌, ◌==◌, Option, take_all, if◌then◌else◌, ℤ, is_nat, take,
  none, some, Option-cases, Bool-cases, inl, inr, List, [], ◌∷◌, ◌++◌, append_assoc, true, false,
  length, length-append, get_elem?, ◌≡◌, refl, sym, ap, ◌∙◌, subst, arith,
}
use fap2_srv.Server.{Session}
use fap2_srv.Session.{find_by_id}

-- How a lookup ends: with a session, at the end of the list, by a read behind the end of the list,
-- or not within the iterations that are looked at.
pub data Lookup : Type 0 where
  found : ℕ → Lookup
  missing outside unfinished : Lookup

-- sClients at a moment: the block of memory that it has, and its elements. push_back takes another
-- block if the old one is full, and frees that.
pub record Vector : Type 0 where
  pub block : ℕ
  pub items : List ℕ

-- sClients.size(), which reads the two ends of the block one after the other; `none` where they
-- belong to different blocks.
abbrev pub size : Vector → Vector → Option ℕ
size from to = if from.block == to.block then some (length to.items) else none

-- sClients[i], which reads the start of the block and then the element there; `none` where that is
-- behind the end, or the block was freed in between.
abbrev pub access : Vector → Vector → ℕ → Option ℕ
access from to i = if from.block == to.block then get_elem? to.items i else none

-- The vector at each read of an iteration: of the size, of the element for the test of its id, and
-- of the element for the result.
pub record Pass : Type 0 where
  pub size_from : Vector
  pub size_to : Vector
  pub test_from : Vector
  pub test_to : Vector
  pub take_from : Vector
  pub take_to : Vector

abbrev pub taken : Option ℕ → Lookup
taken none = outside
taken (some b) = found b

-- The loop from an index on, over what it meets in its iterations.
unfoldable pub look : (ℕ → Session) → ℤ → ℕ → List Pass → Lookup
look heap id i [] = unfinished
look heap id i (p ∷ passes) =
    let rest = look heap id (suc i) passes in
    elim (size p.size_from p.size_to) [
      | none ↦ outside
      | some n ↦
          if ltb i n
          then elim (access p.test_from p.test_to i) [
            | none ↦ outside
            | some b ↦
                if is_nat id (heap b).id then taken (access p.take_from p.take_to i) else rest
          ]
          else missing
    ]

-- The second list is the first with more behind it.
abbrev pub Extends : List ℕ → List ℕ → Type 0
Extends xs ys = (more : List ℕ) × (ys ≡ xs ++ more)

-- The vector got more elements at its end, within its block.
pub record Pushed (v w : Vector) : Type 0 where
  pub block : (v.block == w.block) ≡ true
  pub items : Extends v.items w.items

-- The other threads only add to the end of the vector, from the first state of it to the last, and
-- it has room for what they add.
pub data Grows : Vector → List Pass → Vector → Type 0 where
  stays : {v last : Vector} → Pushed v last → Grows v [] last
  grows :
      {v last : Vector} {passes : List Pass} (p : Pass)
      → Pushed v p.size_from
      → Pushed p.size_from p.size_to
      → Pushed p.size_to p.test_from
      → Pushed p.test_from p.test_to
      → Pushed p.test_to p.take_from
      → Pushed p.take_from p.take_to
      → Grows p.take_to passes last
      → Grows v (p ∷ passes) last

Extends-join : (xs ys zs : List ℕ) → Extends xs ys → Extends ys zs → Extends xs zs
Extends-join xs ys zs (m, e) (n, f) =
    (m ++ n, f ∙ ap (λ (l : List ℕ). l ++ n) e ∙ append_assoc xs m n)

Grows-Extends :
    {v last : Vector} {passes : List Pass} → Grows v passes last → Extends v.items last.items
Grows-Extends (stays e) = e.items
Grows-Extends (grows p a b c d e f g) = Extends-join _ _ _ a.items (
    Extends-join _ _ _ b.items (
      Extends-join _ _ _ c.items (
        Extends-join _ _ _ d.items
          (Extends-join _ _ _ e.items (Extends-join _ _ _ f.items (Grows-Extends g))))))

-- No session among the first `i` has the id.
abbrev Passed : (ℕ → Session) → ℤ → ℕ → List ℕ → Type 0
Passed heap id i xs = (find_by_id heap id (take i xs) ≡ none) × (i ≤ length xs)

-- How a lookup ends between the first list and the last: a session that it finds is the first with
-- the id in the last list, and if it finds none, the first list has none.
pub data Looked (heap : ℕ → Session) (id : ℤ) (xs last : List ℕ) : Lookup → Type 0 where
  hit : (b : ℕ) → find_by_id heap id last ≡ some b → Looked heap id xs last (found b)
  miss : find_by_id heap id xs ≡ none → Looked heap id xs last missing
  going : Looked heap id xs last unfinished

module _ (heap : ℕ → Session) (id : ℤ) where
  find_by_id-found :
      (b : ℕ) (xs ys : List ℕ)
      → find_by_id heap id xs ≡ some b
      → find_by_id heap id (xs ++ ys) ≡ some b
  unfolding find_by_id
  find_by_id-found b [] ys e = absurd (cc)
  find_by_id-found b (x ∷ xs) ys e = ground (arith, find_by_id-found b xs ys)

  find_at :
      (i b : ℕ) (xs : List ℕ)
      → find_by_id heap id (take i xs) ≡ none
      → get_elem? xs i ≡ some b
      → is_nat id (heap b).id ≡ true
      → find_by_id heap id xs ≡ some b
  unfolding find_by_id
  find_at i b [] p e m = absurd (cc)
  find_at zero b (x ∷ xs) p e m = ground (arith, m)
  find_at (suc i) b (x ∷ xs) p e m = ground (arith, find_at i b xs, p)

  pass_on :
      (i b : ℕ) (xs : List ℕ)
      → find_by_id heap id (take i xs) ≡ none
      → get_elem? xs i ≡ some b
      → is_nat id (heap b).id ≡ false
      → find_by_id heap id (take (suc i) xs) ≡ none
  unfolding find_by_id
  pass_on i b [] p e m = absurd (cc)
  pass_on zero b (x ∷ xs) p e m = ground (arith, m)
  pass_on (suc i) b (x ∷ xs) p e m = ground (arith, pass_on i b xs, p)

  take-Extends : (i : ℕ) (xs more : List ℕ) → i ≤ length xs → take i (xs ++ more) ≡ take i xs
  take-Extends zero xs more h = refl
  take-Extends (suc i) [] more h = absurd (omega arith)
  take-Extends (suc i) (x ∷ xs) more h =
      ap (λ (l : List ℕ). x ∷ l) (take-Extends i xs more (omega arith))

  find_by_id-none :
      (xs more : List ℕ) → find_by_id heap id (xs ++ more) ≡ none → find_by_id heap id xs ≡ none
  find_by_id-none xs more e = elim (Option-cases (find_by_id heap id xs)) [
    | inl h ↦ h
    | inr (b, h) ↦ absurd (cc (find_by_id-found b xs more h))
  ]

  Passed-Extends :
      (i : ℕ) (xs ys : List ℕ) → Extends xs ys → Passed heap id i xs → Passed heap id i ys
  Passed-Extends i xs ys (more, e) (none_yet, le) = subst (Passed heap id i) (sym e) (
    ap (find_by_id heap id) (take-Extends i xs more le) ∙ none_yet,
    omega (arith, length-append {0} xs more),
  )

  get_elem?-some : (i : ℕ) (xs : List ℕ) → i < length xs → (b : ℕ) × (get_elem? xs i ≡ some b)
  get_elem?-some i [] h = absurd (omega arith)
  get_elem?-some zero (x ∷ xs) h = (x, refl)
  get_elem?-some (suc i) (x ∷ xs) h = get_elem?-some i xs (omega arith)

  Looked-weaken :
      (xs ys last : List ℕ) (r : Lookup)
      → Extends xs ys
      → Looked heap id ys last r
      → Looked heap id xs last r
  Looked-weaken xs ys last r (more, e) (hit b h) = hit b h
  Looked-weaken xs ys last r (more, e) (miss h) =
      miss (find_by_id-none xs more (ap (find_by_id heap id) (sym e) ∙ h))
  Looked-weaken xs ys last r (more, e) going = going

  get_elem?-Extends-lt : (i : ℕ) (xs ys : List ℕ) → Extends xs ys → i < length xs → i < length ys
  get_elem?-Extends-lt i xs ys (more, e) h =
      let long : length ys ≡ length xs + length more =
        ap (length {0}) e ∙ length-append {0} xs more in
      omega arith

  -- The size of the list is reached.
  whole_list :
      (i : ℕ) (xs sized : List ℕ)
      → Extends xs sized
      → Passed heap id i xs
      → ltb i (length sized) ≡ false
      → find_by_id heap id xs ≡ none
  whole_list i xs sized (more, e) h over =
      let long : length sized ≡ length xs + length more =
        ap (length {0}) e ∙ length-append {0} xs more in
      let le : length xs ≤ i = ground (arith, long, over) in
      ap (find_by_id heap id) (sym (take_all i xs le)) ∙ h.0

  get_elem?-Extends :
      (i b : ℕ) (xs ys : List ℕ) → Extends xs ys → get_elem? xs i ≡ some b → get_elem? ys i ≡ some b
  get_elem?-Extends i b [] ys (more, e) h = absurd (cc)
  get_elem?-Extends zero b (x ∷ xs) ys (more, e) h = rw e h
  get_elem?-Extends (suc i) b (x ∷ xs) ys (more, e) h =
      rw e (get_elem?-Extends i b xs (xs ++ more) (more, refl) h)

  look-Looked :
      (i : ℕ) {v last : Vector} {passes : List Pass}
      → Grows v passes last
      → Passed heap id i v.items
      → Looked heap id v.items last.items (look heap id i passes)
  unfolding look
  look-Looked i (stays e) h = going
  look-Looked i {v} {last} (grows p a b c d e f g) h =
      let sized = p.size_to.items in
      let read = p.test_to.items in
      let before = Extends-join v.items _ sized a.items b.items in
      let between = Extends-join sized _ read c.items d.items in
      let behind = Extends-join read _ p.take_to.items e.items f.items in
      elim (Bool-cases (ltb i (length sized))) [
        | inl more ↦
            let here =
              Passed-Extends i sized read between (Passed-Extends i v.items sized before h) in
            let lt = get_elem?-Extends-lt i sized read between (ltb→lt i (length sized) more) in
            let (c', there) = get_elem?-some i read lt in
            let again = get_elem?-Extends i c' read p.take_to.items behind there in
            elim (Bool-cases (is_nat id (heap c').id)) [
              | inl its ↦
                  let (rest, tail) = Extends-join read _ last.items behind (Grows-Extends g) in
                  rw (b.block, more, d.block, there, its, f.block, again, look)
                    (hit c' (
                      ap (find_by_id heap id) tail
                      ∙ find_by_id-found c' read rest (find_at i c' read here.0 there its)))
              | inr other ↦
                  let on =
                    Passed-Extends (suc i) read p.take_to.items behind
                      (pass_on i c' read here.0 there other, omega arith) in
                  rw (b.block, more, d.block, there, other, look)
                    (Looked-weaken v.items p.take_to.items last.items _
                      (Extends-join v.items _ _ before (Extends-join sized _ _ between behind))
                      (look-Looked (suc i) g on))
            ]
        | inr over ↦ rw (b.block, over, look) (miss (whole_list i v.items sized before h over))
      ]

  -- As long as the other threads only register sessions between its reads, for which the vector
  -- has room without a new block of memory, FindSessionClientById, which AttachEnv calls without
  -- the mutex and which reads an entry once for the test and once more for the result, never reads
  -- behind the end of the list or freed memory; a session that it finds is the first with the id
  -- in the list as it is at the end, and if it finds none, the list at the start had none.
  pub lookup-Looked :
      {v last : Vector} {passes : List Pass}
      → Grows v passes last
      → Looked heap id v.items last.items (look heap id 0 passes)
  unfolding find_by_id
  lookup-Looked g = look-Looked 0 g (refl, omega arith)
