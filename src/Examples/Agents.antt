-- ===== src/Examples/Agents.antt =====
-- An agent with a root and three children, and mutations of it.
use fap2_srv.Prelude.{
  ℕ, suc, ◌==◌, Text, codes, none, some, List, [], ◌∷◌, true, false, Bool, length, ◌≡◌, refl,
}
use fap2_srv.Proxy.{Run, done, pure}
use fap2_srv.Agent.{Renv}
use fap2_srv.Agent.Comps.{
  Guri, CompId, Child, CompsIter, ext_of, unfiltered, childs_range, child_begin, post_incr,
  is_equal, comps_iter,
}
use fap2_srv.Agent.Comps.Loop.{same, incr, Advanced-is_equal}
use fap2_srv.Agent.Comps.Walk.{walk, filter, wanted, Owners, comps_iter-walk}
use fap2_srv.Agent.Mutation.{
  Elem, Mutation, ent_node, ent_rm, active, renv_mutation, renv_mutation-run_time,
}
use fap2_srv.Examples.Remote.{small_net, one_proxy, small_agent}

abbrev guri : Guri
guri = record { node_sep = b':'; parent_sep = b'/'; type_any = codes "*" }

abbrev child_of : Text → Bool → Child
child_of owner removed = record { name = codes "c"; owner = some owner; removed = removed }

abbrev three_childs : List Child
three_childs =
    child_of (codes "o") false ∷ child_of (codes "p") false ∷ child_of (codes "o") true ∷ []

-- The children with the owner `o`.
abbrev of_o : CompId
of_o = record { ext = codes "o:"; rel = b'/'; name = codes "*" }

no_node : (of_o.rel == guri.node_sep) ≡ false
no_node = refl

all_owned : Owners guri of_o (childs_range guri three_childs of_o)
unfolding childs_range
all_owned e = ((codes "o", refl), ((codes "p", refl), ((codes "o", refl), tt)))

comps_iter-walk_example :
    (it : CompsIter) × (comps_iter small_net (pure true) none three_childs guri of_o false one_proxy
      ≡ (done it, one_proxy))
    × (walk (suc (length (childs_range guri three_childs of_o))) guri it
        ≡ some (filter (wanted guri of_o) (childs_range guri three_childs of_o)))
comps_iter-walk_example =
    comps_iter-walk small_net (pure true) none three_childs guri of_o one_proxy no_node refl
      all_owned

abbrev on_first : CompsIter
on_first = record { id = of_o; pos = three_childs; ranged = true; at_end = false }

first_made :
    comps_iter small_net (pure true) none three_childs guri of_o false one_proxy
    ≡ (done on_first, one_proxy)
unfolding comps_iter child_begin childs_range unfiltered ext_of
first_made = refl

abbrev at_last : CompsIter
at_last = record { id = of_o; pos = []; ranged = true; at_end = true }

last_made :
    comps_iter small_net (pure true) none three_childs guri of_o true one_proxy
    ≡ (done at_last, one_proxy)
unfolding comps_iter child_begin childs_range unfiltered ext_of
last_made = refl

-- The iterator behind the only child that it visits.
abbrev past_first : CompsIter
past_first = record { id = of_o; pos = []; ranged = true; at_end = false }

first_passed : post_incr guri on_first ≡ some past_first
unfolding post_incr unfiltered ext_of
first_passed = refl

Advanced-is_equal_example : is_equal past_first at_last ≡ false
Advanced-is_equal_example =
    Advanced-is_equal small_net (pure true) none three_childs guri of_o one_proxy one_proxy
      one_proxy one_proxy on_first past_first at_last no_node first_made last_made
      (incr same first_passed)

-- The component with the name `n`.
abbrev of_node : CompId
of_node = record { ext = []; rel = b':'; name = codes "n" }

-- The component that the root `r` owns.
abbrev of_r : CompId
of_r = record { ext = codes "r/"; rel = b':'; name = codes "*" }

owner_named : unfiltered guri guri.parent_sep of_r ≡ false
unfolding unfiltered ext_of
owner_named = refl

abbrev State : Type 0
State = Renv ℕ × ℕ

-- A base class that counts what it is asked.
abbrev counting : Mutation → State → Run (Unit {0}) × State
counting m (s, n) = (done tt, (s, suc n))

abbrev small_elem : Elem State
small_elem = record {
  enable_optimization = true;
  mut_lim = true;
  spec_max_order = 5;
  lim = 2;
  is_chromo_attached = true;
  add_child = λ m (s, n). (s, suc n);
  add_elem = counting;
  change_attr = counting;
  do_mut_change_cont = counting;
  move_node = counting;
  import_node = counting;
  rm_node = counting;
}

abbrev three_mutations : List Mutation
three_mutations =
    record { kind = ent_node; inactive = false; order = 1; spec = codes "n" }
    ∷ record { kind = ent_rm; inactive = true; order = 2; spec = codes "m" }
    ∷ record { kind = ent_rm; inactive = false; order = 4; spec = codes "l" }
    ∷ []

renv_mutation-run_time_example :
    renv_mutation small_net small_elem true false three_mutations (small_agent, 0)
    ≡ renv_mutation small_net small_elem true false
        (active small_elem three_mutations)
        (small_agent, 0)
renv_mutation-run_time_example =
    renv_mutation-run_time small_net small_elem false three_mutations (small_agent, 0)
