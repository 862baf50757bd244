-- ===== src/Agent/Comps/Loop.antt =====
-- The loop of a client over the children, which compares with the iterator for the end.
use fap2_srv.Prelude.{
  ℕ, ◌==◌, Option, Option-cases, none, some, List, [], ◌∷◌, Bool, Bool-cases, inl, inr, true, false,
  ◌≡◌, refl, ap, sym, subst, ◌∙◌, arith,
}
use mathlib.Core.Option
use fap2_srv.Client.{Net}
use fap2_srv.Proxy.{Method, Proxies, Run, done}
use fap2_srv.Agent.Comps.{
  Guri, CompId, Child, CompsIter, child_begin, post_incr, is_equal, comps_iter,
}

-- The second iterator is the first after some calls of PostIncr.
pub data Advanced (g : Guri) (it : CompsIter) : CompsIter → Type 0 where
  same : Advanced g it it
  incr : {jt kt : CompsIter} → Advanced g it jt → post_incr g jt ≡ some kt → Advanced g it kt

-- The iterators have the same id and the same mEnd.
abbrev Like : CompsIter → CompsIter → Type 0
Like it jt = (jt.id ≡ it.id) × (jt.at_end ≡ it.at_end)

Like-some : (it jt : CompsIter) → some it ≡ some jt → Like it jt
Like-some it jt h =
    let e : it ≡ jt = cc in
    (sym (ap (λ (i : CompsIter). i.id) e), sym (ap (λ (i : CompsIter). i.at_end) e))

Like-done :
    {N : Type 0} (it jt : CompsIter) (s t : Proxies N)
    → ◌≡◌ {A = Run CompsIter × Proxies N} (done it, s) (done jt, t)
    → Like it jt
Like-done it jt s t h =
    let e : it ≡ jt = cc in
    (sym (ap (λ (i : CompsIter). i.id) e), sym (ap (λ (i : CompsIter). i.at_end) e))

Like-map :
    (it jt : CompsIter) (pos : Option (List Child))
    → Option.map (λ cs. record it { pos = cs }) pos ≡ some jt
    → Like it jt
Like-map it jt none h = absurd (cc)
Like-map it jt (some cs) h = Like-some (record it { pos = cs }) jt h

incr_cases :
    (g : Guri) (it jt : CompsIter) (pos : List Child)
    → it.pos ≡ pos
    → it.ranged ≡ true
    → (it.id.rel == g.node_sep) ≡ false
    → post_incr g it ≡ some jt
    → Like it jt
unfolding post_incr
incr_cases g it jt [] p r h e = absurd (cc (rw (h, r, p) at e))
incr_cases g it jt (c ∷ cs) p r h e = Like-map it jt _ (rw (h, r, p) at e)

-- PostIncr on children leaves the id and mEnd as they are.
post_incr-keeps :
    (g : Guri) (it jt : CompsIter)
    → (it.id.rel == g.node_sep) ≡ false
    → post_incr g it ≡ some jt
    → Like it jt
unfolding post_incr
post_incr-keeps g it jt h e = elim (Bool-cases it.ranged) [
  | inl r ↦ incr_cases g it jt it.pos refl r h e
  | inr r ↦ absurd (cc (rw (h, r) at e))
]

Advanced-keeps :
    {g : Guri} {it jt : CompsIter}
    → (it.id.rel == g.node_sep) ≡ false
    → Advanced g it jt
    → Like it jt
Advanced-keeps h same = (refl, refl)
Advanced-keeps {g} h (incr {jt} {kt} r e) =
    let (i, d) = Advanced-keeps h r in
    let still : (jt.id.rel == g.node_sep) ≡ false =
      subst (λ (k : CompId). (k.rel == g.node_sep) ≡ false) (sym i) h in
    let (j, f) = post_incr-keeps g jt kt still e in (j ∙ i, f ∙ d)

module _ {N : Type 0} (net : Net N) where
  comps_iter-at_end :
      (null : Method N Bool) (root : Option ℕ) (childs : List Child) (g : Guri) (id : CompId)
      (to_end : Bool) (s t : Proxies N) (it : CompsIter)
      → (id.rel == g.node_sep) ≡ false
      → comps_iter net null root childs g id to_end s ≡ (done it, t)
      → (it.id ≡ id) × (it.at_end ≡ to_end)
  unfolding comps_iter
  comps_iter-at_end null root childs g id to_end s t it h e =
      elim (Bool-cases (id.rel == g.parent_sep)) [
        | inl p ↦ elim (Option-cases (child_begin g childs id to_end)) [
          | inl n ↦ absurd (cc (rw (h, p, n) at e))
          | inr (pos, n) ↦ Like-done _ it s t (rw (h, p, n) at e)
        ]
        | inr p ↦ Like-done _ it s t (rw (h, p) at e)
      ]

  -- Of the iterators over children, the one from which a loop starts is, however often it is
  -- advanced, never equal to the one for the end: mEnd differs in them and is never changed.
  pub Advanced-is_equal :
      (null : Method N Bool) (root : Option ℕ) (childs : List Child) (g : Guri) (id : CompId)
      (s t u v : Proxies N) (first it end : CompsIter)
      → (id.rel == g.node_sep) ≡ false
      → comps_iter net null root childs g id false s ≡ (done first, t)
      → comps_iter net null root childs g id true u ≡ (done end, v)
      → Advanced g first it
      → is_equal it end ≡ false
  unfolding is_equal
  Advanced-is_equal null root childs g id s t u v first it end h begins ends r =
      let (i, b) = comps_iter-at_end null root childs g id false s t first h begins in
      let (j, d) = comps_iter-at_end null root childs g id true u v end h ends in
      let still : (first.id.rel == g.node_sep) ≡ false =
        subst (λ (k : CompId). (k.rel == g.node_sep) ≡ false) (sym i) h in
      ground (arith, Advanced-keeps still r, b, d)
