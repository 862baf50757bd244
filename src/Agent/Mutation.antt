-- ===== src/Agent/Mutation.antt =====
-- dmas/renv.cpp: DoMutation of ARenv and of ARenvu, which applies the mutations of a chromo in
-- their order.
use fap2_srv.Prelude.{
  ℕ, ◌+◌, ◌&&◌, ◌||◌, if◌then◌else◌, ltb, Text, List, [], ◌∷◌, Bool, Bool-cases, inl, inr, true,
  not, ◌≡◌, refl, arith,
}
use fap2_srv.Client.{Net}
use fap2_srv.Proxy.{Run, done, thrown, asserted, null_access, out_of_fuel}
use fap2_srv.Agent.{Renv, add_elem_rmt}

-- TNodeType
pub data NodeType : Type 0 where
  ent_node ent_change ent_cont ent_move ent_import ent_rm ent_other : NodeType

-- A ChromoNode: its type, whether it has the attribute ENa_Inactive, GetOrder and ToString.
pub record Mutation : Type 0 where
  pub kind : NodeType
  pub inactive : Bool
  pub order : ℕ
  pub spec : Text

-- What the loop uses of the class Elem and of the chromo manager, which the fap2 library defines.
pub record Elem (S : Type 0) : Type 0 where
  pub enable_optimization : Bool
  -- EN_MUT_LIM
  pub mut_lim : Bool
  pub spec_max_order : ℕ
  pub lim : ℕ
  pub is_chromo_attached : Bool
  -- iChromo->Root().AddChild
  pub add_child : Mutation → S → S
  pub add_elem : Mutation → S → Run (Unit {0}) × S
  pub change_attr : Mutation → S → Run (Unit {0}) × S
  pub do_mut_change_cont : Mutation → S → Run (Unit {0}) × S
  pub move_node : Mutation → S → Run (Unit {0}) × S
  pub import_node : Mutation → S → Run (Unit {0}) × S
  pub rm_node : Mutation → S → Run (Unit {0}) × S

module _ {S : Type 0} (e : Elem S) where
  -- An inactive mutation is omitted.
  abbrev pub is_inactive : Mutation → Bool
  is_inactive m = e.enable_optimization && m.inactive

  -- order > tord - lim, without the subtraction.
  abbrev pub above_limit : Mutation → Bool
  above_limit m =
      e.mut_lim
      && e.is_chromo_attached
      && ltb 0 e.spec_max_order
      && ltb e.spec_max_order (m.order + e.lim)

  -- The branches on the type of a mutation; `add` is what is done for a node.
  abbrev pub perform :
      (Mutation → S → Run (Unit {0}) × S) → NodeType → Mutation → S → Run (Unit {0}) × S
  perform add ent_node m s = add m s
  perform add ent_change m s = e.change_attr m s
  perform add ent_cont m s = e.do_mut_change_cont m s
  perform add ent_move m s = e.move_node m s
  perform add ent_import m s = e.import_node m s
  perform add ent_rm m s = e.rm_node m s
  perform add ent_other m s = (done tt, s)

  abbrev pub proceed : Run (Unit {0}) × S → (S → Run (Unit {0}) × S) → Run (Unit {0}) × S
  proceed (done _, s) k = k s
  proceed (thrown what, s) k = (thrown what, s)
  proceed (asserted, s) k = (asserted, s)
  proceed (null_access, s) k = (null_access, s)
  proceed (out_of_fuel, s) k = (out_of_fuel, s)

  -- The body of the loop.
  unfoldable pub mutate :
      (Mutation → S → Run (Unit {0}) × S) → Bool → Bool → Mutation → S → Run (Unit {0}) × S
  mutate add run_time trial m s =
      if is_inactive m
      then (done tt, if not run_time then e.add_child m s else s)
      else if above_limit m
      then (done tt, if not run_time && not trial then e.add_child m s else s)
      else perform add m.kind m s

  unfoldable pub do_mutation :
      (Mutation → S → Run (Unit {0}) × S) → Bool → Bool → List Mutation → S → Run (Unit {0}) × S
  unfolding mutate
  do_mutation add run_time trial [] s = (done tt, s)
  do_mutation add run_time trial (m ∷ ms) s =
      proceed (mutate add run_time trial m s) (do_mutation add run_time trial ms)

  -- ARenvu::DoMutation
  unfoldable pub renvu_mutation : Bool → Bool → List Mutation → S → Run (Unit {0}) × S
  unfolding do_mutation
  renvu_mutation = do_mutation e.add_elem

-- A node is added to the remote environment.
unfoldable pub add_remote :
    {N C : Type 0} → Net N → Mutation → Renv N × C → Run (Unit {0}) × (Renv N × C)
unfolding add_elem_rmt
add_remote net m (s, c) = let (r, t) = add_elem_rmt net m.spec s in (r, (t, c))

-- ARenv::DoMutation, over the agent and the state of its base class.
unfoldable pub renv_mutation :
    {N C : Type 0}
    → Net N
    → Elem (Renv N × C)
    → Bool
    → Bool
    → List Mutation
    → Renv N × C
    → Run (Unit {0}) × (Renv N × C)
unfolding do_mutation add_remote
renv_mutation net e = do_mutation e (add_remote net)

-- The mutations that are carried out.
abbrev pub active : {S : Type 0} → Elem S → List Mutation → List Mutation
active e [] = []
active e (m ∷ ms) =
    let rest = active e ms in if is_inactive e m || above_limit e m then rest else m ∷ rest

module _ {S : Type 0} (e : Elem S) where
  omitted_nothing :
      (add : Mutation → S → Run (Unit {0}) × S) (trial : Bool) (m : Mutation) (s : S)
      → (is_inactive e m || above_limit e m) ≡ true
      → mutate e add true trial m s ≡ (done tt, s)
  unfolding mutate
  omitted_nothing add trial m s h = ground (arith, h)

  proceed-same :
      (r : Run (Unit {0}) × S) (k l : S → Run (Unit {0}) × S)
      → ((s : S) → k s ≡ l s)
      → proceed e r k ≡ proceed e r l
  proceed-same (done _, s) k l h = h s
  proceed-same (thrown what, s) k l h = refl
  proceed-same (asserted, s) k l h = refl
  proceed-same (null_access, s) k l h = refl
  proceed-same (out_of_fuel, s) k l h = refl

  do_mutation-run_time :
      (add : Mutation → S → Run (Unit {0}) × S) (trial : Bool) (ms : List Mutation) (s : S)
      → do_mutation e add true trial ms s ≡ do_mutation e add true trial (active e ms) s
  unfolding do_mutation
  do_mutation-run_time add trial [] s = refl
  do_mutation-run_time add trial (m ∷ ms) s =
      elim (Bool-cases (is_inactive e m || above_limit e m)) [
        | inl skip ↦
            rw (skip, omitted_nothing add trial m s skip) (do_mutation-run_time add trial ms s)
        | inr act ↦
            rw act
              (proceed-same (mutate e add true trial m s) _ _ (do_mutation-run_time add trial ms))
      ]

-- At run time the mutations that are inactive or above the limit of an attached chromo have no
-- effect at all, and the others are carried out in their order, on the remote environment too, as
-- if the omitted ones did not stand in the chromo.
pub renv_mutation-run_time :
    {N C : Type 0} (net : Net N) (e : Elem (Renv N × C)) (trial : Bool) (ms : List Mutation)
    (s : Renv N × C)
    → renv_mutation net e true trial ms s ≡ renv_mutation net e true trial (active e ms) s
unfolding renv_mutation
renv_mutation-run_time net e trial ms s = do_mutation-run_time e (add_remote net) trial ms s
