-- ===== src/Agent/Comps.antt =====
-- dmas/renv.cpp: CompsIter of ARenv and of ARenvu, the iterator over the components of an agent.
pub mod Walk
pub mod Loop
pub mod Assign
use fap2_srv.Prelude.{
  ℕ, ◌==◌, ◌||◌, ◌&&◌, if◌then◌else◌, Text, text_eq, Option, none, some, List, [], ◌∷◌, Bool, true,
  false, not,
}
use mathlib.Core.Option
use fap2_srv.Client.{Net}
use fap2_srv.Proxy.{Method, done, null_access, ◌>>=◌, pure, name, get_parent, is_removed}

-- Constants of GUri in the fap2 library.
pub record Guri : Type 0 where
  pub node_sep : ℕ
  pub parent_sep : ℕ
  pub type_any : Text

-- GUri::TElem: the extension, the relation and the name.
pub record CompId : Type 0 where
  pub ext : Text
  pub rel : ℕ
  pub name : Text

-- An entry of iChilds: its key, the name of GetMan()->GetObj(cowner), the owner of the child, and
-- IsRemoved. `none` stands for a manager that is NULL, or that is no element.
pub record Child : Type 0 where
  pub name : Text
  pub owner : Option Text
  pub removed : Bool

-- `pos` is the part of iChildsRange from iChildsIter on, and `ranged` tells whether iChildsRange
-- was set.
pub record CompsIter : Type 0 where
  pub id : CompId
  pub pos : List Child
  pub ranged : Bool
  pub at_end : Bool

abbrev pub last : Text → Option ℕ
last [] = none
last (c ∷ []) = some c
last (c ∷ d ∷ s) = last (d ∷ s)

-- substr(0, size() - 1)
abbrev pub but_last : Text → Text
but_last [] = []
but_last (c ∷ []) = []
but_last (c ∷ d ∷ s) = c ∷ but_last (d ∷ s)

abbrev pub is_last : Text → ℕ → Bool
is_last s sep = elim (last s) [ none ↦ false | some c ↦ c == sep ]

abbrev pub empty : Text → Bool
empty [] = true
empty (c ∷ s) = false

-- iExt
unfoldable pub ext_of : Guri → Text → Text
ext_of g ext = if is_last ext g.parent_sep || is_last ext g.node_sep then but_last ext else []

-- The test that the extension names no owner, behind the separator that it is looked up for.
unfoldable pub unfiltered : Guri → ℕ → CompId → Bool
unfolding ext_of
unfiltered g sep id =
    empty id.ext
    || not (is_last id.ext sep)
    || empty (ext_of g id.ext)
    || text_eq (ext_of g id.ext) g.type_any

abbrev pub present : Child → Bool
present c = not c.removed

-- The first child from here that passes the test.
abbrev pub skip : (Child → Bool) → List Child → List Child
skip p [] = []
skip p (c ∷ cs) = let rest = skip p cs in if p c then c ∷ cs else rest

-- The first child from here that has the owner and is present; `none` where the name of a missing
-- owner is asked for, which is the case for each child that is come to.
abbrev pub skip_owned : Text → List Child → Option (List Child)
skip_owned ext [] = some []
skip_owned ext (c ∷ cs) =
    let rest = skip_owned ext cs in
    elim c.owner [
      | none ↦ none
      | some owner ↦ if text_eq owner ext && not c.removed then some (c ∷ cs) else rest
    ]

-- equal_range
abbrev pub equal_range : Text → List Child → List Child
equal_range key [] = []
equal_range key (c ∷ cs) =
    let rest = equal_range key cs in if text_eq c.name key then c ∷ rest else rest

-- iChildsRange
unfoldable pub childs_range : Guri → List Child → CompId → List Child
childs_range g childs id = if text_eq id.name g.type_any then childs else equal_range id.name childs

-- The constructor, for children; `none` stands for the access through NULL.
unfoldable pub child_begin : Guri → List Child → CompId → Bool → Option (List Child)
unfolding childs_range unfiltered ext_of
child_begin g childs id to_end =
    if to_end
    then some []
    else if unfiltered g g.node_sep id
    then some (skip present (childs_range g childs id))
    else skip_owned (ext_of g id.ext) (childs_range g childs id)

-- PostIncr, which steps behind the child that the iterator is on; `none` where it does not know the
-- end of the range, or is there, or asks for the name of a missing owner.
unfoldable pub post_incr : Guri → CompsIter → Option CompsIter
unfolding unfiltered ext_of
post_incr g it =
    if it.id.rel == g.node_sep
    then some (record it { at_end = true })
    else if it.ranged
    then elim it.pos [
      | [] ↦ none
      | c ∷ rest ↦
          Option.map (λ pos. record it { pos = pos })
            (if unfiltered g g.node_sep it.id
              then some (skip present rest)
              else skip_owned (ext_of g it.id.ext) (skip present rest))
    ]
    else none

-- The copy constructor and Clone: iChildsRange is not copied.
unfoldable pub clone : CompsIter → CompsIter
clone it = record it { ranged = false }

abbrev pub same_id : CompId → CompId → Bool
same_id i j = text_eq i.ext j.ext && (i.rel == j.rel) && text_eq i.name j.name

-- Set, for two iterators of one agent, whose assignment to itself changes nothing: iChildsRange, iExt
-- and iExtsrel stay. `none` where the iterator has the range of another id, which the new position
-- is not in.
unfoldable pub set : CompsIter → CompsIter → Option CompsIter
set it jt =
    if same_id it.id jt.id || not it.ranged then some (record jt { ranged = it.ranged }) else none

-- Two positions in the same range, which are compared by what is left of it.
abbrev pub same_pos : List Child → List Child → Bool
same_pos [] [] = true
same_pos [] (d ∷ ds) = false
same_pos (c ∷ cs) [] = false
same_pos (c ∷ cs) (d ∷ ds) = same_pos cs ds

-- IsEqual, for two iterators of one agent.
unfoldable pub is_equal : CompsIter → CompsIter → Bool
is_equal it jt =
    same_id it.id jt.id
    && same_pos it.pos jt.pos
    && (if it.at_end then jt.at_end else not jt.at_end)

-- What GetElem gives.
pub data Comp : Type 0 where
  root_px : ℕ → Comp
  child : Child → Comp

abbrev pub head : List Child → Option Child
head [] = none
head (c ∷ cs) = some c

-- GetElem: `none` stands for the end of the range, which is dereferenced, and NULL is `some none`.
unfoldable pub get_elem : Guri → Option ℕ → CompsIter → Option (Option Comp)
get_elem g root it =
    if it.id.rel == g.node_sep
    then if it.at_end
      then some none
      else some (elim root [ none ↦ none | some r ↦ some (root_px r) ])
    else if it.id.rel == g.parent_sep
    then elim (head it.pos) [ none ↦ none | some c ↦ some (some (child c)) ]
    else some none

module _ {N : Type 0} (net : Net N) where
  -- Name() through a pointer.
  unfoldable pub name_of : Option ℕ → Method N Text
  unfolding name
  name_of none s = (null_access, s)
  name_of (some p) s = name net p s

  -- mRroot->GetParent()->Name() == iExt && !mRroot->IsRemoved()
  unfoldable pub owner_test : ℕ → Text → Method N Bool
  unfolding name_of get_parent is_removed
  owner_test r ext =
      get_parent r
      >>= name_of
      >>= (λ owner. if text_eq owner ext then is_removed r >>= (λ b. pure (not b)) else pure false)

  -- The first value of mEnd, for the root; `null` is what is done where there is no root.
  unfoldable pub name_test : Method N Bool → Option ℕ → Guri → CompId → Method N Bool
  unfolding name
  name_test null root g id =
      if text_eq id.name g.type_any
      then pure false
      else elim root [ none ↦ null | some r ↦ name net r >>= (λ n. pure (text_eq n id.name)) ]

  -- The constructor, for the root: mEnd.
  unfoldable pub root_end : Method N Bool → Option ℕ → Guri → CompId → Bool → Method N Bool
  unfolding name_test owner_test unfiltered ext_of
  root_end null root g id to_end = name_test null root g id >>= (λ _.
      if to_end
      then pure true
      else if unfiltered g g.parent_sep id
      then pure false
      else elim root [ none ↦ null | some r ↦ owner_test r (ext_of g id.ext) ])

  -- CompsIter(aElem, aId, aToEnd)
  unfoldable pub comps_iter :
      Method N Bool → Option ℕ → List Child → Guri → CompId → Bool → Method N CompsIter
  unfolding root_end child_begin
  comps_iter null root childs g id to_end =
      if id.rel == g.node_sep
      then root_end null root g id to_end
        >>= (λ end. pure (record { id = id; pos = []; ranged = false; at_end = end }))
      else if id.rel == g.parent_sep
      then elim (child_begin g childs id to_end) [
        | none ↦ λ s. (null_access, s)
        | some pos ↦ pure (record { id = id; pos = pos; ranged = true; at_end = to_end })
      ]
      else pure (record { id = id; pos = []; ranged = false; at_end = to_end })

  -- ARenv::CompsIter, which takes a missing root for the end.
  unfoldable pub renv_iter : Option ℕ → List Child → Guri → CompId → Bool → Method N CompsIter
  unfolding comps_iter
  renv_iter = comps_iter (pure true)

  -- ARenvu::CompsIter, which does not check that there is a root.
  unfoldable pub renvu_iter : Option ℕ → List Child → Guri → CompId → Bool → Method N CompsIter
  unfolding comps_iter
  renvu_iter = comps_iter (λ s. (null_access, s))
