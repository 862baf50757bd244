-- ===== src/Provider/Runs.antt =====
-- The agents that DaaProv has given, over any later calls of CreateNode and GetNode.
use fap2_srv.Prelude.{
  ℕ, ◌<◌, ◌≤◌, Text, text_eq-eq, has, at, has-at, at-insert, insert-keeps, text_key, Option, none,
  some, Option-cases, inl, inr, [], false, ◌≡◌, ◌⊎◌, refl, ap, sym, ◌∙◌, subst, arith,
}
use fap2_srv.Provider.{
  AgentType, type_name, DaaProv, type_of, new_node, create_node, register_node, get_node,
}
use fap2_srv.Provider.Nodes.{
  found_again, unknown_again, makes, register_node-reg, register_node-given,
}

-- A call of the provider, and the runs from its constructor.
pub data Call (s : DaaProv) : DaaProv → Type 0 where
  creates : (type name : Text) → Call s (create_node type name s).1
  gets : (parent : Option ℕ) (uri : Text) → Call s (get_node parent uri s).1

pub data Calls (s : DaaProv) : DaaProv → Type 0 where
  none_yet : Calls s s
  then_calls : {t u : DaaProv} → Calls s t → Call t u → Calls s u

abbrev pub new_provider : DaaProv
new_provider = record { nodes = λ a. none; count = 0; reg = []; children = [] }

-- The agent that is registered under a uri is of the class that the uri names, and named after it.
pub record IsAgent (s : DaaProv) (uri : Text) (a : ℕ) : Type 0 where
  pub exists : a < s.count
  pub kind : AgentType
  pub type : type_of uri ≡ some kind
  pub node : s.nodes a ≡ some (record { kind = kind; name = type_name kind })

abbrev Registered : DaaProv → Type 0
Registered s = (uri : Text) (a : ℕ) → at uri s.reg ≡ some a → IsAgent s uri a

-- What is there stays.
record Stays (s t : DaaProv) : Type 0 where
  count : s.count ≤ t.count
  nodes : (a : ℕ) → a < s.count → t.nodes a ≡ s.nodes a
  reg : (uri : Text) (a : ℕ) → at uri s.reg ≡ some a → at uri t.reg ≡ some a

Stays-refl : (s : DaaProv) → Stays s s
Stays-refl s = record { count = omega arith; nodes = λ a h. refl; reg = λ uri a e. e }

Stays-trans : {s t u : DaaProv} → Stays s t → Stays t u → Stays s u
Stays-trans f g = record {
  count = omega (arith, f.count, g.count);
  nodes = λ a h. g.nodes a (omega (arith, h, f.count)) ∙ f.nodes a h;
  reg = λ uri a e. g.reg uri a (f.reg uri a e);
}

IsAgent-Stays : {s t : DaaProv} (uri : Text) (a : ℕ) → Stays s t → IsAgent s uri a → IsAgent t uri a
IsAgent-Stays uri a f n = record {
  exists = omega (arith, f.count, n.exists);
  kind = n.kind;
  type = n.type;
  node = f.nodes a n.exists ∙ n.node;
}

create_node-Stays : (type name : Text) (s : DaaProv) → Stays s (create_node type name s).1
unfolding create_node new_node
create_node-Stays type name s = elim (Option-cases (type_of type)) [
  | inl e ↦ rw (e, create_node) (Stays-refl s)
  | inr (kind, e) ↦
      rw (e, create_node)
        (record { count = omega arith; nodes = λ a h. ground (arith, h); reg = λ uri a f. f })
]

create_node-reg : (type name : Text) (s : DaaProv) → (create_node type name s).1.reg ≡ s.reg
unfolding create_node new_node
create_node-reg type name s = elim (Option-cases (type_of type)) [
  | inl e ↦ rw (e, create_node) refl
  | inr (kind, e) ↦ rw (e, create_node) refl
]

register_node-Stays :
    (parent : Option ℕ) (uri : Text) (kind : AgentType) (s : DaaProv)
    → has uri s.reg ≡ false
    → Stays s (register_node parent uri kind s).1
unfolding register_node new_node
register_node-Stays none uri kind s new = record {
  count = omega arith;
  nodes = λ a h. ground (arith, h);
  reg = λ key a e. insert-keeps uri key s.count a s.reg new e;
}
register_node-Stays (some p) uri kind s new = record {
  count = omega arith;
  nodes = λ a h. ground (arith, h);
  reg = λ key a e. insert-keeps uri key s.count a s.reg new e;
}

-- The registration of a new agent.
register_node-at :
    (parent : Option ℕ) (uri key : Text) (kind : AgentType) (s : DaaProv) (a : ℕ)
    → has uri s.reg ≡ false
    → at key (register_node parent uri kind s).1.reg ≡ some a
    → (at key s.reg ≡ some a) ⊎ ((uri ≡ key) × (a ≡ s.count))
unfolding register_node new_node
register_node-at none uri key kind s a new e =
    ground (arith, at-insert uri key s.count s.reg new, text_eq-eq uri key, e)
register_node-at (some p) uri key kind s a new e =
    ground (arith, at-insert uri key s.count s.reg new, text_eq-eq uri key, e)

register_node-IsAgent :
    (parent : Option ℕ) (uri : Text) (kind : AgentType) (s : DaaProv)
    → type_of uri ≡ some kind
    → IsAgent (register_node parent uri kind s).1 uri s.count
unfolding register_node new_node
register_node-IsAgent none uri kind s e = record {
  exists = omega arith;
  kind = kind;
  type = e;
  node = ground arith;
}
register_node-IsAgent (some p) uri kind s e = record {
  exists = omega arith;
  kind = kind;
  type = e;
  node = ground arith;
}

register_node-Registered :
    (parent : Option ℕ) (uri : Text) (kind : AgentType) (s : DaaProv)
    → has uri s.reg ≡ false
    → type_of uri ≡ some kind
    → Registered s
    → Registered (register_node parent uri kind s).1
register_node-Registered parent uri kind s new e v key a f =
    elim (register_node-at parent uri key kind s a new f) [
      | inl old ↦ IsAgent-Stays key a (register_node-Stays parent uri kind s new) (v key a old)
      | inr (same, last) ↦
          subst (λ k. IsAgent (register_node parent uri kind s).1 k a) same
            (subst (λ b. IsAgent (register_node parent uri kind s).1 uri b) (sym last)
              (register_node-IsAgent parent uri kind s e))
    ]

-- What a call of GetNode does to what was there.
record Gets (s t : DaaProv) : Type 0 where
  stays : Stays s t
  registered : Registered s → Registered t

get_node-Gets : (parent : Option ℕ) (uri : Text) (s : DaaProv) → Gets s (get_node parent uri s).1
get_node-Gets parent uri s = elim (Option-cases (at uri s.reg)) [
  | inr (a, e) ↦
      rw (found_again parent uri a s e) (record { stays = Stays-refl s; registered = λ v. v })
  | inl e ↦ elim (Option-cases (type_of uri)) [
    | inl f ↦
        rw (unknown_again parent uri s e f) (record { stays = Stays-refl s; registered = λ v. v })
    | inr (kind, f) ↦
        let new : has uri s.reg ≡ false = rw (has-at uri s.reg, e) refl in
        rw (makes parent uri kind s e f) (record {
          stays = register_node-Stays parent uri kind s new;
          registered = register_node-Registered parent uri kind s new f;
        })
  ]
]

Call-Gets : {s t : DaaProv} → Call s t → Gets s t
Call-Gets {s} (creates type name) =
    let f = create_node-Stays type name s in
    record {
      stays = f;
      registered = λ v uri a e.
          IsAgent-Stays uri a f
            (v uri a (ap (λ m. at uri m) (sym (create_node-reg type name s)) ∙ e));
    }
Call-Gets {s} (gets parent uri) = get_node-Gets parent uri s

Calls-Gets : {s t : DaaProv} → Calls s t → Gets s t
Calls-Gets {s} none_yet = record { stays = Stays-refl s; registered = λ v. v }
Calls-Gets (then_calls r c) =
    let f = Calls-Gets r in
    let g = Call-Gets c in
    record { stays = Stays-trans f.stays g.stays; registered = λ v. g.registered (f.registered v) }

new-Registered : Registered new_provider
unfolding at
new-Registered uri a e = absurd (cc)

-- What GetNode gives is registered.
get_node-reg :
    (parent : Option ℕ) (uri : Text) (a : ℕ) (s : DaaProv)
    → (get_node parent uri s).0 ≡ some a
    → at uri (get_node parent uri s).1.reg ≡ some a
get_node-reg parent uri a s given = elim (Option-cases (at uri s.reg)) [
  | inr (b, e) ↦
      rw (found_again parent uri b s e) (e ∙ (rw (found_again parent uri b s e) at given))
  | inl e ↦ elim (Option-cases (type_of uri)) [
    | inl f ↦ absurd (cc (rw (unknown_again parent uri s e f) at given))
    | inr (kind, f) ↦ rw (makes parent uri kind s e f) (
        register_node-reg parent uri kind s e
        ∙ (sym (register_node-given parent uri kind s)
            ∙ (rw (makes parent uri kind s e f) at given)))
  ]
]

-- An agent that GetNode of the provider gives for a uri, after any calls of CreateNode and GetNode
-- from the constructor on, is given for that uri for good: after any more such calls, GetNode
-- gives the same agent and changes nothing, and this is of the class that the uri names, with the
-- name of the class.
pub get_node_lasts :
    {s t : DaaProv} (parent parent' : Option ℕ) (uri : Text) (a : ℕ)
    → Calls new_provider s
    → (get_node parent uri s).0 ≡ some a
    → Calls (get_node parent uri s).1 t
    → (get_node parent' uri t ≡ (some a, t)) × IsAgent t uri a
get_node_lasts {s} {t} parent parent' uri a before given later =
    let first = get_node-Gets parent uri s in
    let v = first.registered ((Calls-Gets before).registered new-Registered) in
    let g = Calls-Gets later in
    let e = g.stays.reg uri a (get_node-reg parent uri a s given) in
    (found_again parent' uri a t e, g.registered v uri a e)
