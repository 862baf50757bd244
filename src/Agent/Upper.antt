-- ===== src/Agent/Upper.antt =====
-- dmas/renv.cpp: ARenvu, whose methods repeat those of ARenv but for the use of its root, which
-- nothing ever sets.
use fap2_srv.Prelude.{
  ℕ, ◌==◌, Text, text_eq, Option, none, List, [], Bool, Bool-cases, inl, inr, true, false, ◌≡◌,
  refl, arith,
}
use fap2_srv.Client.{connect, Net}
use fap2_srv.Proxy.{Proxies, Run, null_access}
use fap2_srv.Agent.{Renv, connected, reconnect, change_cont, get_cont, request}
use fap2_srv.Agent.Comps.{
  Guri, CompId, Child, CompsIter, Comp, post_incr, clone, set, is_equal, get_elem, name_test,
  root_end, comps_iter, renvu_iter,
}

-- The members that the constructors set.
unfoldable pub new_renvu : {N : Type 0} → Proxies N → Renv N
new_renvu proxies = record { proxies = proxies; renv_uri = []; root = none; notes = [] }

module _ {N : Type 0} (net : Net N) where
  -- ARenvu::ChangeCont
  unfoldable pub renvu_change_cont : Text → Bool → Renv N → Bool × Renv N
  unfolding change_cont
  renvu_change_cont = change_cont net

  -- ARenvu::GetCont
  unfoldable pub renvu_get_cont : Renv N → Text
  unfolding get_cont
  renvu_get_cont = get_cont net

  -- ARenvu::Request
  unfoldable pub renvu_request : Text → Text → Renv N → Run (Bool × Text) × Renv N
  unfolding request
  renvu_request = request net

-- ARenvu::CompsIter::PostIncr
unfoldable pub renvu_post_incr : Guri → CompsIter → Option CompsIter
unfolding post_incr
renvu_post_incr = post_incr

-- The copy constructor of ARenvu::CompsIter, and Clone.
unfoldable pub renvu_clone : CompsIter → CompsIter
unfolding clone
renvu_clone = clone

-- ARenvu::CompsIter::Set
unfoldable pub renvu_set : CompsIter → CompsIter → Option CompsIter
unfolding set
renvu_set = set

-- ARenvu::CompsIter::IsEqual
unfoldable pub renvu_is_equal : CompsIter → CompsIter → Bool
unfolding is_equal
renvu_is_equal = is_equal

-- ARenvu::CompsIter::GetElem
unfoldable pub renvu_get_elem : Guri → Option ℕ → CompsIter → Option (Option Comp)
unfolding get_elem
renvu_get_elem = get_elem

module _ {N : Type 0} (net : Net N) where
  reconnect-root :
      (val : Text) (rt_only : Bool) (s : Renv N) → (reconnect net val rt_only s).1.root ≡ s.root
  unfolding reconnect
  reconnect-root val rt_only s =
      elim (Bool-cases (connected (connect net s.proxies.client [] s.proxies.net).0)) [
        | inl e ↦ rw e refl
        | inr e ↦ rw e refl
      ]

  change_cont-root :
      (val : Text) (rt_only : Bool) (s : Renv N) → (change_cont net val rt_only s).1.root ≡ s.root
  unfolding change_cont
  change_cont-root val rt_only s = elim (Bool-cases (text_eq val s.renv_uri)) [
    | inl e ↦ rw e refl
    | inr e ↦ rw e (reconnect-root val rt_only s)
  ]

  -- The constructor of ARenvu's iterator over the root, for an id with a name, uses a null pointer,
  -- from the start of the agent and after every ChangeCont.
  pub renvu_iter-null :
      (val : Text) (rt_only to_end : Bool) (childs : List Child) (g : Guri) (id : CompId)
      (p s : Proxies N)
      → id.rel ≡ g.node_sep
      → text_eq id.name g.type_any ≡ false
      → let a = (renvu_change_cont net val rt_only (new_renvu p)).1 in
        renvu_iter net a.root childs g id to_end s ≡ (null_access, s)
  unfolding renvu_iter comps_iter root_end name_test renvu_change_cont new_renvu
  renvu_iter-null val rt_only to_end childs g id p s node named =
      let e : (id.rel == g.node_sep) ≡ true = ground (arith, node) in
      rw (change_cont-root val rt_only (new_renvu p)) (rw (e, named))
