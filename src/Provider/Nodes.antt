-- ===== src/Provider/Nodes.antt =====
-- GetNode of DaaProv along later calls.
use fap2_srv.Prelude.{
  Text, text_eq_self, has, at, has-at, at-insert, text_key, ℕ, Option, none, some, Option-cases,
  inl, inr, false, ◌≡◌, refl, ap, sym, ◌∙◌,
}
use fap2_srv.Provider.{AgentType, DaaProv, type_of, new_node, register_node, get_node}

pub found_again :
    (parent : Option ℕ) (uri : Text) (a : ℕ) (s : DaaProv)
    → at uri s.reg ≡ some a
    → get_node parent uri s ≡ (some a, s)
unfolding get_node
found_again parent uri a s e = rw (e, get_node)

pub unknown_again :
    (parent : Option ℕ) (uri : Text) (s : DaaProv)
    → at uri s.reg ≡ none
    → type_of uri ≡ none
    → get_node parent uri s ≡ (none, s)
unfolding get_node
unknown_again parent uri s e f = rw (e, get_node) (rw f)

pub makes :
    (parent : Option ℕ) (uri : Text) (kind : AgentType) (s : DaaProv)
    → at uri s.reg ≡ none
    → type_of uri ≡ some kind
    → get_node parent uri s ≡ register_node parent uri kind s
unfolding get_node
makes parent uri kind s e f = rw (e, get_node) (rw f)

pub register_node-reg :
    (parent : Option ℕ) (uri : Text) (kind : AgentType) (s : DaaProv)
    → at uri s.reg ≡ none
    → at uri (register_node parent uri kind s).1.reg ≡ some s.count
unfolding register_node new_node
register_node-reg none uri kind s e =
    let new : has uri s.reg ≡ false = rw (has-at uri s.reg, e) refl in
    rw (at-insert uri uri s.count s.reg new, text_eq_self uri)
register_node-reg (some p) uri kind s e =
    let new : has uri s.reg ≡ false = rw (has-at uri s.reg, e) refl in
    rw (at-insert uri uri s.count s.reg new, text_eq_self uri)

pub register_node-given :
    (parent : Option ℕ) (uri : Text) (kind : AgentType) (s : DaaProv)
    → (register_node parent uri kind s).0 ≡ some s.count
unfolding register_node new_node
register_node-given parent uri kind s = refl

-- GetNode gives the same agent to every later call with the same uri, and makes nothing for it: an
-- agent of each class is made once, and an unknown uri never gives one.
pub get_node-repeated :
    (parent parent' : Option ℕ) (uri : Text) (s : DaaProv)
    → get_node parent' uri (get_node parent uri s).1 ≡ get_node parent uri s
get_node-repeated parent parent' uri s = elim (Option-cases (at uri s.reg)) [
  | inr (a, e) ↦ rw (found_again parent uri a s e) (found_again parent' uri a s e)
  | inl e ↦ elim (Option-cases (type_of uri)) [
    | inl f ↦ rw (unknown_again parent uri s e f) (unknown_again parent' uri s e f)
    | inr (kind, f) ↦ rw (makes parent uri kind s e f) (
        found_again parent' uri s.count (register_node parent uri kind s).1
          (register_node-reg parent uri kind s e)
        ∙ ap (λ (r : Option ℕ). (r, (register_node parent uri kind s).1))
            (sym (register_node-given parent uri kind s)))
  ]
]
