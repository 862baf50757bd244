-- ===== src/Jobs/Models.antt =====
-- Which files the list of models names, and that it is read back.
use fap2_srv.Prelude.{
  ℕ, suc, ◌+◌, ◌==◌, if◌then◌else◌, Text, text_eq-eq, codes, find_last_of, Avoids, take, drop,
  length, some, Option-cases, Bool-cases, inl, inr, List, [], ◌∷◌, ◌++◌, true, false, ◌≡◌, ◌↔◌, ◌⊎◌,
  refl, ap, sym, ◌∙◌, arith, append_assoc, append-nil, zero, subst,
}
use fap2_srv.Requests.{r_list_separator}
use fap2_srv.Jobs.{Entry, is_xml, is_model, models_of, get_list, is_model}

-- The text at a dot that find_last_of gave.
find_last_of-split :
    (s : Text) (i : ℕ) → find_last_of (codes ".") s ≡ some i → s ≡ take i s ++ 46 ∷ drop (suc i) s
unfolding find_last_of
find_last_of-split [] i h = cc
find_last_of-split (c ∷ s) zero h = elim (Option-cases (find_last_of (codes ".") s)) [
  | inl none_later ↦ ground (arith, none_later)
  | inr (j, later) ↦ absurd (ground (arith, later))
]
find_last_of-split (c ∷ s) (suc i) h = elim (Option-cases (find_last_of (codes ".") s)) [
  | inl none_later ↦ absurd (ground (arith, none_later))
  | inr (j, later) ↦
      let e : j ≡ i = ground (arith, later) in
      ap (λ (t : Text). c ∷ t) (find_last_of-split s i (later ∙ ap (λ (n : ℕ). some n) e))
]

-- The last dot of a text that ends in `.xml`.
find_last_of-xml :
    (stem : Text) → find_last_of (codes ".") (stem ++ codes ".xml") ≡ some (length stem)
unfolding find_last_of
find_last_of-xml [] = refl
find_last_of-xml (c ∷ stem) = rw (find_last_of-xml stem)

drop-xml : (stem : Text) → drop (suc (length stem)) (stem ++ codes ".xml") ≡ codes "xml"
drop-xml [] = refl
drop-xml (c ∷ stem) = drop-xml stem

-- The name from its stem, when the part behind the dot is `xml`.
named :
    (name : Text)
    → is_xml name ≡ true
    → (name ≡ codes "xml") ⊎ ((stem : Text) × (name ≡ stem ++ codes ".xml"))
unfolding is_xml
named name h = elim (Option-cases (find_last_of (codes ".") name)) [
  | inl no_dot ↦ inl (text_eq-eq name (codes "xml") (rw no_dot at h))
  | inr (i, dot) ↦
      let e : i + 1 ≡ suc i = omega arith in
      let tail : drop (suc i) name ≡ codes "xml" =
        text_eq-eq (drop (suc i) name) (codes "xml") (rw (dot, e) at h) in
      inr
        (take i name, find_last_of-split name i dot ∙ ap (λ (t : Text). take i name ++ 46 ∷ t) tail)
]

stem-xml : (stem : Text) → is_xml (stem ++ codes ".xml") ≡ true
unfolding is_xml
stem-xml stem =
    let e : length stem + 1 ≡ suc (length stem) = omega arith in
    rw (find_last_of-xml stem) (rw e (rw (drop-xml stem)))

bare-xml : is_xml (codes "xml") ≡ true
unfolding is_xml find_last_of
bare-xml = refl

-- A file counts as a model exactly if its name ends in `.xml`, or is `xml` with no dot.
pub is_xml_iff :
    (name : Text)
    → (is_xml name ≡ true)
      ↔ ((name ≡ codes "xml") ⊎ ((stem : Text) × (name ≡ stem ++ codes ".xml")))
is_xml_iff name = (
  named name,
  λ h. elim h [
    | inl bare ↦ subst (λ (n : Text). is_xml n ≡ true) (sym bare) bare-xml
    | inr (stem, e) ↦ subst (λ (n : Text). is_xml n ≡ true) (sym e) (stem-xml stem)
  ],
)

-- The names that a client reads from a list of models.
abbrev pub split_list : Text → Text → List Text
split_list word [] = []
split_list word (c ∷ s) =
    let first = split_list [] s in
    let rest = split_list (word ++ c ∷ []) s in if c == b';' then word ∷ first else rest

-- The names of the models.
abbrev pub models : List Entry → List Text
models [] = []
models (e ∷ es) = let rest = models es in if is_model e then e.name ∷ rest else rest

-- No file name holds the separator.
abbrev pub Separable : List Entry → Type 0
Separable [] = Unit {0}
Separable (e ∷ es) = Avoids r_list_separator e.name × Separable es

split_name :
    (word name rest : Text)
    → Avoids r_list_separator name
    → split_list word (name ++ r_list_separator ++ rest) ≡ (word ++ name) ∷ split_list [] rest
split_name word [] rest h = ap (λ (w : Text). w ∷ split_list [] rest) (sym (append-nil word))
split_name word (c ∷ name) rest h =
    let e : (c == b';') ≡ false = ground (arith, h.0) in
    rw e (
      split_name (word ++ c ∷ []) name rest h.1
      ∙ ap (λ (w : Text). w ∷ split_list [] rest) (append_assoc word (c ∷ []) name))

models_of-split : (es : List Entry) → Separable es → split_list [] (models_of es) ≡ models es
unfolding models_of
models_of-split [] h = refl
models_of-split (e ∷ es) h = elim (Bool-cases (is_model e)) [
  | inl good ↦ rw good (
      split_name [] e.name (models_of es) h.0
      ∙ ap (λ (ws : List Text). e.name ∷ ws) (models_of-split es h.1))
  | inr bad ↦ rw bad (models_of-split es h.1)
]

-- The list of a directory that was opened is read back as the names of its models in their order,
-- if no file name holds the separator.
pub get_list-split :
    (es : List Entry) → Separable es → split_list [] (get_list (some es)) ≡ models es
unfolding get_list
get_list-split es h = models_of-split es h
