-- ===== src/Examples/Files.antt =====
-- The requests on a session, and the provider of the agents.
use fap2_srv.Prelude.{codes, none, some, List, [], ◌∷◌, true, false, ◌≡◌, refl, at, text_key}
use fap2_srv.Jobs.{Entry, get_list}
use fap2_srv.Jobs.Models.{split_list, models, get_list-split}
use fap2_srv.Provider.{DaaProv, get_node, create_node, type_of, register_node, new_node}
use fap2_srv.Provider.Runs.{
  none_yet, then_calls, creates, gets, new_provider, IsAgent, get_node_lasts,
}

abbrev directory : List Entry
directory =
    record { name = codes "a.xml"; is_dir = some false }
    ∷ record { name = codes "b.txt"; is_dir = some false }
    ∷ record { name = codes "c"; is_dir = some true }
    ∷ record { name = codes "xml"; is_dir = none }
    ∷ []

get_list-split_example : split_list [] (get_list (some directory)) ≡ models directory
get_list-split_example = get_list-split directory (
  (refl, (refl, (refl, (refl, (refl, tt))))),
  ((refl, (refl, (refl, (refl, (refl, tt))))), ((refl, tt), ((refl, (refl, (refl, tt))), tt))),
)

-- GetNode for the upper agent, and later a CreateNode and a GetNode for the other one.
abbrev upper_given : DaaProv
upper_given = (get_node none (codes "ARenvu") new_provider).1

abbrev lower_given : DaaProv
lower_given =
    (get_node (some 7) (codes "ARenv")
      (create_node (codes "ARenv") (codes "agent") upper_given).1).1

upper_is_first : (get_node none (codes "ARenvu") new_provider).0 ≡ some 0
unfolding get_node type_of register_node new_node at
upper_is_first = refl

get_node_lasts_example :
    (get_node (some 1) (codes "ARenvu") lower_given ≡ (some 0, lower_given))
    × IsAgent lower_given (codes "ARenvu") 0
get_node_lasts_example = get_node_lasts none (some 1) (codes "ARenvu") 0 none_yet upper_is_first (
    then_calls (then_calls none_yet (creates (codes "ARenv") (codes "agent")))
      (gets (some 7) (codes "ARenv")))
