-- ===== src/Agent/Types.antt =====
-- dmas/renv.h and dmas/renv.cpp: the constructors of ARenv and ARenvu, their type names, what they
-- are found as, their destructor, and the ranges of their iterators.
use fap2_srv.Prelude.{
  ℕ, if◌then◌else◌, Text, text_eq, codes, Option, none, List, [], ◌∷◌, ◌++◌, Bool, true, false,
}
use fap2_srv.Client.{Net}
use fap2_srv.Proxy.{Proxies, Method}
use fap2_srv.Agent.{Renv}
use fap2_srv.Agent.Comps.{Guri, CompId, Child, CompsIter, renv_iter, renvu_iter}

-- What the agents take from the base class Elem of the fap2 library.
pub record ElemBase : Type 0 where
  -- Elem::PEType()
  pub pe_type : Text
  -- Elem::DoGetObj: is the object found under the name?
  pub do_get_obj : Text → Bool

-- What the constructor of Elem is given, and SetParent.
pub record Identity : Type 0 where
  pub name : Text
  pub parent : Text

-- ARenv::Type
abbrev pub renv_type : Text
renv_type = codes "ARenv"

-- ARenv::PEType
unfoldable pub renv_pe_type : ElemBase → Guri → Text
renv_pe_type base g = base.pe_type ++ g.parent_sep ∷ renv_type

-- ARenv(aName, aMan, aEnv): the agent has no uri and no root yet.
unfoldable pub named_renv : {N : Type 0} → Text → Proxies N → Identity × Renv N
named_renv name proxies = (
  record { name = name; parent = renv_type },
  record { proxies = proxies; renv_uri = []; root = none; notes = [] },
)

-- ARenv(aMan, aEnv)
unfoldable pub native_renv : {N : Type 0} → ElemBase → Proxies N → Identity × Renv N
native_renv base proxies = (
  record { name = renv_type; parent = base.pe_type },
  record { proxies = proxies; renv_uri = []; root = none; notes = [] },
)

-- How an object is found under a name.
pub data Found : Type 0 where
  itself base_object nothing : Found

-- ARenv::DoGetObj
unfoldable pub renv_get_obj : ElemBase → Text → Found
renv_get_obj base name =
    if text_eq name renv_type then itself else if base.do_get_obj name then base_object else nothing

-- ARenv::IsContChangeable
unfoldable pub renv_is_cont_changeable : Text → Bool
renv_is_cont_changeable name = true

-- The proxies that ~ARenv deletes, from mProxies.
unfoldable pub renv_deletes : List ℕ → List ℕ
renv_deletes [] = []
renv_deletes (px ∷ proxies) = px ∷ renv_deletes proxies

-- ARenv::CompsIter::SRel
unfoldable pub renv_srel : CompsIter → ℕ
renv_srel it = it.id.rel

-- ARenv::CompsIter::IsCompatible
unfoldable pub renv_is_compatible : CompsIter → CompsIter → Bool
renv_is_compatible it jt = true

module _ {N : Type 0} (net : Net N) where
  -- ARenv::NodesLoc_Begin
  unfoldable pub renv_nodes_loc_begin : Option ℕ → List Child → Guri → CompId → Method N CompsIter
  unfolding renv_iter
  renv_nodes_loc_begin root childs g id = renv_iter net root childs g id false

  -- ARenv::NodesLoc_End
  unfoldable pub renv_nodes_loc_end : Option ℕ → List Child → Guri → CompId → Method N CompsIter
  unfolding renv_iter
  renv_nodes_loc_end root childs g id = renv_iter net root childs g id true

-- ARenvu::Type
abbrev pub renvu_type : Text
renvu_type = codes "ARenvu"

-- ARenvu::PEType
unfoldable pub renvu_pe_type : ElemBase → Guri → Text
renvu_pe_type base g = base.pe_type ++ g.parent_sep ∷ renvu_type

-- ARenvu(aName, aMan, aEnv)
unfoldable pub named_renvu : Text → Identity
named_renvu name = record { name = name; parent = renvu_type }

-- ARenvu(aMan, aEnv)
unfoldable pub native_renvu : ElemBase → Identity
native_renvu base = record { name = renvu_type; parent = base.pe_type }

-- ARenvu::DoGetObj
unfoldable pub renvu_get_obj : ElemBase → Text → Found
renvu_get_obj base name =
    if text_eq name renvu_type
    then itself
    else if base.do_get_obj name
    then base_object
    else nothing

-- ARenvu::IsContChangeable
unfoldable pub renvu_is_cont_changeable : Text → Bool
renvu_is_cont_changeable name = true

-- The proxies that ~ARenvu deletes, from mProxies.
unfoldable pub renvu_deletes : List ℕ → List ℕ
renvu_deletes [] = []
renvu_deletes (px ∷ proxies) = px ∷ renvu_deletes proxies

-- ARenvu::CompsIter::SRel
unfoldable pub renvu_srel : CompsIter → ℕ
renvu_srel it = it.id.rel

-- ARenvu::CompsIter::IsCompatible
unfoldable pub renvu_is_compatible : CompsIter → CompsIter → Bool
renvu_is_compatible it jt = true

module _ {N : Type 0} (net : Net N) where
  -- ARenvu::NodesLoc_Begin
  unfoldable pub renvu_nodes_loc_begin : Option ℕ → List Child → Guri → CompId → Method N CompsIter
  unfolding renvu_iter
  renvu_nodes_loc_begin root childs g id = renvu_iter net root childs g id false

  -- ARenvu::NodesLoc_End
  unfoldable pub renvu_nodes_loc_end : Option ℕ → List Child → Guri → CompId → Method N CompsIter
  unfolding renvu_iter
  renvu_nodes_loc_end root childs g id = renvu_iter net root childs g id true
