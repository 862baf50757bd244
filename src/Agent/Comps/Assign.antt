-- ===== src/Agent/Comps/Assign.antt =====
-- dmas/renv.cpp: CompsIter::Set behind Clone, as the copy and the assignment of an Iterator use them.
use fap2_srv.Prelude.{some, true, ◌≡◌}
use fap2_srv.Agent.Comps.{CompsIter, same_id, clone, set}

-- An iterator that is set to a clone of another one of its own id is what that one is, with the
-- range that the clone has lost.
pub set-clone :
    (it jt : CompsIter)
    → it.ranged ≡ true
    → jt.ranged ≡ true
    → same_id it.id jt.id ≡ true
    → set it (clone jt) ≡ some jt
unfolding set clone
set-clone it jt ranged from same = rw (same, ranged, from)
