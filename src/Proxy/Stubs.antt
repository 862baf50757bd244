-- ===== src/Proxy/Stubs.antt =====
-- dmas/melempx.h and dmas/melempx.cpp: the methods of a proxy that make no request. What each gives
-- does not depend on its arguments.
pub mod More
use fap2_srv.Prelude.{ℕ, Text, List, [], ◌∷◌, Bool, false}
use fap2_srv.Proxy.{Proxies}

-- What a method gives: NULL, false, 0, nothing, an empty text, the vector FakeComps, the members
-- mChromo and mMDeps, a default ChromoNode, the first of mMDeps or the `out_of_range` of `at(0)`, an
-- empty range, or an undefined result, where the body has no `return`.
pub data Given : Type 0 where
  null falsity zero_int no_value empty_text fake_comps own_chromo own_deps : Given
  default_node empty_range out_of_range unreturned : Given
  first_dep : ℕ → Given

-- MelemPx::EType
abbrev pub etype : Text
etype = []

-- DaaProxy::GetContext
unfoldable pub context_of : {N : Type 0} → ℕ → Proxies N → Text
context_of p s = (s.px p).context

-- DaaProxy::Request, which MelemPx overrides.
unfoldable pub daa_request : Text → Text → Bool
daa_request context req = false

-- MelemPx: methods on the owner and the components.
pub data CompStub : Type 0 where
  get_man get_man_const set_man set_observer comps comps_const : CompStub

unfoldable pub comp_stub : CompStub → Given
comp_stub get_man = null
comp_stub get_man_const = null
comp_stub set_man = no_value
comp_stub set_observer = no_value
comp_stub comps = fake_comps
comp_stub comps_const = fake_comps

-- MelemPx: methods on nodes.
pub data NodeStub : Type 0 where
  get_node_by_guri get_node_from get_root get_inh_root get_cont_count : NodeStub
  is_cont_changeable : NodeStub

unfoldable pub node_stub : NodeStub → Given
node_stub get_node_by_guri = null
node_stub get_node_from = null
node_stub get_root = null
node_stub get_inh_root = null
node_stub get_cont_count = zero_int
node_stub is_cont_changeable = falsity

-- MelemPx: methods on contents and uris.
pub data ContStub : Type 0 where
  get_cont_at change_cont move_node mutate mutate_by get_uri_into get_ruri_into : ContStub
  get_uri get_ruri rebase_uri rebase_uri_from : ContStub

unfoldable pub cont_stub : ContStub → Given
cont_stub get_cont_at = falsity
cont_stub change_cont = falsity
cont_stub move_node = falsity
cont_stub mutate = no_value
cont_stub mutate_by = no_value
cont_stub get_uri_into = no_value
cont_stub get_ruri_into = no_value
cont_stub get_uri = empty_text
cont_stub get_ruri = empty_text
cont_stub rebase_uri = falsity
cont_stub rebase_uri_from = falsity

-- MelemPx: methods on owners and attributes.
pub data OwnerStub : Type 0 where
  get_aowner get_aowner_const get_acomp_owning get_upper_aowner get_common_owner : OwnerStub
  is_pheno_modif set_removed get_attaching_mgr get_attaching_mgr_const is_aowner_of : OwnerStub
  change_attr change_attr_by get_rank get_l_rank get_comp_owning_of get_comp_owning : OwnerStub
  is_inherited_comp has_inher_deps get_capacity is_heir_of call : OwnerStub

unfoldable pub owner_stub : OwnerStub → Given
owner_stub get_aowner = null
owner_stub get_aowner_const = null
owner_stub get_acomp_owning = null
owner_stub get_upper_aowner = null
owner_stub get_common_owner = null
owner_stub is_pheno_modif = falsity
owner_stub set_removed = no_value
owner_stub get_attaching_mgr = null
owner_stub get_attaching_mgr_const = null
owner_stub is_aowner_of = falsity
owner_stub change_attr = falsity
owner_stub change_attr_by = no_value
owner_stub get_rank = no_value
owner_stub get_l_rank = no_value
owner_stub get_comp_owning_of = null
owner_stub get_comp_owning = null
owner_stub is_inherited_comp = falsity
owner_stub has_inher_deps = falsity
owner_stub get_capacity = zero_int
owner_stub is_heir_of = falsity
owner_stub call = null

-- MelemPx: methods on mutations.
pub data MutationStub : Type 0 where
  do_mutation do_mut_change_cont create_heir add_elem rm_node chromos_const : MutationStub
  chromos mutation set_mutation append_mutation_file append_mutation : MutationStub

unfoldable pub mutation_stub : MutationStub → Given
mutation_stub do_mutation = no_value
mutation_stub do_mut_change_cont = falsity
mutation_stub create_heir = null
mutation_stub add_elem = null
mutation_stub rm_node = falsity
mutation_stub chromos_const = own_chromo
mutation_stub chromos = own_chromo
mutation_stub mutation = own_chromo
mutation_stub set_mutation = no_value
mutation_stub append_mutation_file = falsity
mutation_stub append_mutation = default_node
