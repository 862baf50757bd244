-- ===== src/Agent/Comps/Walk.antt =====
-- Which components the iterator of an agent visits.
use fap2_srv.Prelude.{
  ℕ, zero, suc, ◌<◌, ◌==◌, ◌||◌, ◌&&◌, if◌then◌else◌, Text, text_eq, Option, none, some, List, [],
  ◌∷◌, Bool, Bool-cases, Option-cases, inl, inr, true, false, not, length, All, ◌≡◌, ◌≢◌, refl, ◌∙◌,
  ap, sym, arith,
}
use mathlib.Core.Option
use fap2_srv.Client.{Net}
use fap2_srv.Proxy.{
  Method, Proxies, Run, after, done, thrown, asserted, out_of_fuel, null_access, pure, get_parent,
}
use fap2_srv.Agent.Comps.{
  Guri, CompId, Child, CompsIter, present, skip, skip_owned, ext_of, unfiltered, childs_range,
  child_begin, post_incr, clone, comps_iter, root_end, name_test, owner_test, name_of,
}

abbrev pub owner_is : Text → Child → Bool
owner_is ext c = elim c.owner [ none ↦ false | some owner ↦ text_eq owner ext ]

-- The children that the id asks for.
abbrev pub wanted : Guri → CompId → Child → Bool
wanted g id c = not c.removed && (unfiltered g g.node_sep id || owner_is (ext_of g id.ext) c)

abbrev pub filter : (Child → Bool) → List Child → List Child
filter p [] = []
filter p (c ∷ cs) = let rest = filter p cs in if p c then c ∷ rest else rest

-- The loop of a client from the iterator to the end of its range.
abbrev pub walk : ℕ → Guri → CompsIter → Option (List Child)
walk zero g it = none
walk (suc fuel) g it = elim it.pos [
  | [] ↦ some []
  | c ∷ cs ↦ elim (post_incr g it) [
    | none ↦ none
    | some next ↦ Option.map (λ rest. c ∷ rest) (walk fuel g next)
  ]
]

skip-same :
    (p q : Child → Bool) (cs : List Child) → ((c : Child) → p c ≡ q c) → skip p cs ≡ skip q cs
skip-same p q [] h = refl
skip-same p q (c ∷ cs) h = rw (h c, skip-same p q cs h)

skip-skip :
    (p q : Child → Bool) (cs : List Child)
    → ((c : Child) → q c ≡ true → p c ≡ true)
    → skip q (skip p cs) ≡ skip q cs
skip-skip p q [] h = refl
skip-skip p q (c ∷ cs) h = ground (arith, h c, skip-skip p q cs h)

-- The children from here on, at the first that is wanted.
abbrev from : Guri → CompId → List Child → CompsIter
from g id cs = record { id = id; pos = skip (wanted g id) cs; ranged = true; at_end = false }

-- The test that the constructor and PostIncr skip by is the one for the wanted children.
wanted-present :
    (g : Guri) (id : CompId) (cs : List Child)
    → unfiltered g g.node_sep id ≡ true
    → skip present cs ≡ skip (wanted g id) cs
wanted-present g id cs e = skip-same present (wanted g id) cs (λ c. ground (arith, e))

abbrev pub HasOwner : Child → Type 0
HasOwner c = (owner : Text) × (c.owner ≡ some owner)

-- The children that have the owner, are present, and so on.
abbrev owned_by : Text → Child → Bool
owned_by ext c = owner_is ext c && not c.removed

skip_owned-skip :
    (ext : Text) (cs : List Child)
    → All HasOwner cs
    → skip_owned ext cs ≡ some (skip (owned_by ext) cs)
skip_owned-skip ext [] h = refl
skip_owned-skip ext (c ∷ cs) ((owner, e), hs) = ground (arith, e, skip_owned-skip ext cs hs)

skip-All : (P : Child → Type 0) (p : Child → Bool) (cs : List Child) → All P cs → All P (skip p cs)
skip-All P p [] h = h
skip-All P p (c ∷ cs) h = elim (Bool-cases (p c)) [
  | inl e ↦ rw e h
  | inr e ↦ rw e (skip-All P p cs h.1)
]

wanted-owned :
    (g : Guri) (id : CompId) (cs : List Child)
    → unfiltered g g.node_sep id ≡ false
    → All HasOwner cs
    → skip_owned (ext_of g id.ext) cs ≡ some (skip (wanted g id) cs)
wanted-owned g id cs e h =
    skip_owned-skip (ext_of g id.ext) cs h
    ∙ ap (λ (l : List Child). some l)
        (skip-same (owned_by (ext_of g id.ext)) (wanted g id) cs (λ c. ground (arith, e)))

-- If the id names an owner, each of the children has one.
abbrev pub Owners : Guri → CompId → List Child → Type 0
Owners g id cs = unfiltered g g.node_sep id ≡ false → All HasOwner cs

begin_from :
    (g : Guri) (childs : List Child) (id : CompId)
    → Owners g id (childs_range g childs id)
    → child_begin g childs id false ≡ some (skip (wanted g id) (childs_range g childs id))
unfolding child_begin
begin_from g childs id h = elim (Bool-cases (unfiltered g g.node_sep id)) [
  | inl e ↦
      rw e (ap (λ (l : List Child). some l) (wanted-present g id (childs_range g childs id) e))
  | inr e ↦ rw e (wanted-owned g id (childs_range g childs id) e (h e))
]

next_skips :
    (g : Guri) (id : CompId) (cs : List Child)
    → Owners g id cs
    → (if unfiltered g g.node_sep id
        then some (skip present cs)
        else skip_owned (ext_of g id.ext) (skip present cs))
      ≡ some (skip (wanted g id) cs)
next_skips g id cs h = elim (Bool-cases (unfiltered g g.node_sep id)) [
  | inl e ↦ rw e (ap (λ (l : List Child). some l) (wanted-present g id cs e))
  | inr e ↦ rw e (
      wanted-owned g id (skip present cs) e (skip-All HasOwner present cs (h e))
      ∙ ap (λ (l : List Child). some l) (skip-skip present (wanted g id) cs (λ c k. ground arith)))
]

incr_from :
    (g : Guri) (id : CompId) (c : Child) (cs : List Child)
    → (id.rel == g.node_sep) ≡ false
    → Owners g id cs
    → post_incr g (record { id = id; pos = c ∷ cs; ranged = true; at_end = false })
      ≡ some (from g id cs)
unfolding post_incr
incr_from g id c cs h o = rw h (
    ap
      (Option.map
        (λ (pos : List Child). record { id = id; pos = pos; ranged = true; at_end = false }))
      (next_skips g id cs o))

walk_step :
    (fuel : ℕ) (g : Guri) (id : CompId) (c : Child) (cs : List Child)
    → (id.rel == g.node_sep) ≡ false
    → Owners g id cs
    → walk (suc fuel) g (record { id = id; pos = c ∷ cs; ranged = true; at_end = false })
      ≡ Option.map (λ (rest : List Child). c ∷ rest) (walk fuel g (from g id cs))
walk_step fuel g id c cs h o = rw (incr_from g id c cs h o, walk)

walk_from :
    (fuel : ℕ) (g : Guri) (id : CompId) (cs : List Child)
    → (id.rel == g.node_sep) ≡ false
    → length cs < fuel
    → Owners g id cs
    → walk fuel g (from g id cs) ≡ some (filter (wanted g id) cs)
walk_from zero g id cs h less o = absurd (omega arith)
walk_from (suc fuel) g id [] h less o = refl
walk_from (suc fuel) g id (c ∷ cs) h less o = elim (Bool-cases (wanted g id c)) [
  | inl take ↦ rw take (
      walk_step fuel g id c cs h (λ e. (o e).1)
      ∙ ap (Option.map (λ (rest : List Child). c ∷ rest))
          (walk_from fuel g id cs h (omega arith) (λ e. (o e).1)))
  | inr drop ↦ rw drop (walk_from (suc fuel) g id cs h (omega arith) (λ e. (o e).1))
]

module _ {N : Type 0} (net : Net N) where
  -- If the id of an iterator over the children of an agent names no owner or each child of the
  -- asked name has one, the constructor returns, and the loop of PostIncr from there to the end of
  -- the range visits, once and in their order, the children with the asked name that are not
  -- removed and have the owner that the id names, if it names one.
  pub comps_iter-walk :
      (null : Method N Bool) (root : Option ℕ) (childs : List Child) (g : Guri) (id : CompId)
      (s : Proxies N)
      → (id.rel == g.node_sep) ≡ false
      → id.rel ≡ g.parent_sep
      → Owners g id (childs_range g childs id)
      → (it : CompsIter) × (comps_iter net null root childs g id false s ≡ (done it, s))
        × (walk (suc (length (childs_range g childs id))) g it
            ≡ some (filter (wanted g id) (childs_range g childs id)))
  unfolding comps_iter
  comps_iter-walk null root childs g id s not_node children owners =
      let e : (id.rel == g.parent_sep) ≡ true = ground (arith, children) in
      (
        from g id (childs_range g childs id),
        rw (not_node, e, begin_from g childs id owners) refl,
        walk_from (suc (length (childs_range g childs id))) g id (childs_range g childs id) not_node
            (omega arith) owners,
      )

  done_same :
      (it it' : CompsIter) (s t : Proxies N)
      → ◌≡◌ {A = Run CompsIter × Proxies N} (done it, s) (done it', t)
      → it ≡ it'
  done_same it it' s t h = cc

  iter-id :
      (null : Method N Bool) (root : Option ℕ) (childs : List Child) (g : Guri) (id : CompId)
      (to_end : Bool) (s t : Proxies N) (it : CompsIter)
      → (id.rel == g.node_sep) ≡ false
      → comps_iter net null root childs g id to_end s ≡ (done it, t)
      → it.id ≡ id
  unfolding comps_iter
  iter-id null root childs g id to_end s t it not_node made =
      elim (Bool-cases (id.rel == g.parent_sep)) [
        | inl p ↦ elim (Option-cases (child_begin g childs id to_end)) [
          | inl n ↦ absurd (cc (rw (not_node, p, n) at made))
          | inr (pos, n) ↦
              sym (ap (λ (i : CompsIter). i.id) (done_same _ it s t (rw (not_node, p, n) at made)))
        ]
        | inr p ↦ sym (ap (λ (i : CompsIter). i.id) (done_same _ it s t (rw (not_node, p) at made)))
      ]

  -- A copy of an iterator over children, which does not know the end of its range, cannot be
  -- advanced: PostIncr on it is undefined, wherever the original stands.
  pub post_incr-clone :
      (null : Method N Bool) (root : Option ℕ) (childs : List Child) (g : Guri) (id : CompId)
      (to_end : Bool) (s t : Proxies N) (it : CompsIter)
      → (id.rel == g.node_sep) ≡ false
      → comps_iter net null root childs g id to_end s ≡ (done it, t)
      → post_incr g (clone it) ≡ none
  unfolding comps_iter post_incr clone
  post_incr-clone null root childs g id to_end s t it not_node made =
      let e : it.id ≡ id = iter-id null root childs g id to_end s t it not_node made in
      let f : (it.id.rel == g.node_sep) ≡ false = ground (arith, ap (λ (i : CompId). i.rel) e) in
      rw f

  owner_test_null : (r : ℕ) (ext : Text) → owner_test net r ext ≡ (λ s. (null_access, s))
  unfolding owner_test name_of get_parent
  owner_test_null r ext = refl

  -- What is done behind the request for the name of the root does not come back.
  crashes_end :
      (id : CompId) (r : Run Bool × Proxies N) (t : Proxies N) (it : CompsIter)
      → after {B = CompsIter}
          (after {B = Bool} r (λ _ u. (null_access, u)))
          (λ end. pure (record { id = id; pos = []; ranged = false; at_end = end }))
        ≢ (done it, t)
  crashes_end id (done b, s) t it h = cc
  crashes_end id (thrown what, s) t it h = cc
  crashes_end id (asserted, s) t it h = cc
  crashes_end id (null_access, s) t it h = cc
  crashes_end id (out_of_fuel, s) t it h = cc

  -- With a root and an id that names the owner of the component, neither iterator's constructor
  -- returns: the owner is asked for through the parent of the root proxy, which is always null.
  pub comps_iter-owner :
      (null : Method N Bool) (root : ℕ) (childs : List Child) (g : Guri) (id : CompId)
      (s t : Proxies N) (it : CompsIter)
      → id.rel ≡ g.node_sep
      → unfiltered g g.parent_sep id ≡ false
      → comps_iter net null (some root) childs g id false s ≢ (done it, t)
  unfolding comps_iter root_end
  comps_iter-owner null root childs g id s t it node named h =
      let e : (id.rel == g.node_sep) ≡ true = ground (arith, node) in
      crashes_end id (name_test net null (some root) g id s) t it
        (rw (e, named, owner_test_null root (ext_of g id.ext)) at h)
