-- ===== src/Proxy/Stubs/More.antt =====
-- dmas/melempx.h and dmas/melempx.cpp: the other methods that make no request.
use fap2_srv.Prelude.{ℕ, List, [], ◌∷◌}
use fap2_srv.Proxy.Stubs.{
  Given, null, falsity, no_value, own_deps, default_node, empty_range, out_of_range, unreturned,
  first_dep,
}

-- MelemPx: methods on dependencies.
pub data DepStub : Type 0 where
  get_m_deps add_m_dep add_cm_dep remove_m_dep rm_cm_dep is_chromo_attached get_dep : DepStub
  get_major_dep get_major_dep_into get_major_dep_of get_major_dep_of_into : DepStub
  get_local_forward_cc_dep get_implicit_dep is_ref_safe resolve_mut_unsafety : DepStub

unfoldable pub dep_stub : List ℕ → DepStub → Given
dep_stub deps get_m_deps = own_deps
dep_stub deps add_m_dep = no_value
dep_stub deps add_cm_dep = no_value
dep_stub deps remove_m_dep = no_value
dep_stub deps rm_cm_dep = falsity
dep_stub deps is_chromo_attached = falsity
dep_stub deps get_dep = no_value
dep_stub [] get_major_dep = out_of_range
dep_stub (d ∷ deps) get_major_dep = first_dep d
dep_stub deps get_major_dep_into = no_value
dep_stub [] get_major_dep_of = out_of_range
dep_stub (d ∷ deps) get_major_dep_of = first_dep d
dep_stub deps get_major_dep_of_into = no_value
dep_stub deps get_local_forward_cc_dep = default_node
dep_stub deps get_implicit_dep = no_value
dep_stub deps is_ref_safe = falsity
dep_stub deps resolve_mut_unsafety = falsity

-- MelemPx: methods on the chromo.
pub data ChromoStub : Type 0 where
  resolve_muts_unsafety compact_chromo compact_chromo_at has_parent_modifs : ChromoStub
  copy_modifs_from_parent has_modifs copy_parent_modifs_to_comp : ChromoStub
  rebase_uri_to_int_node : ChromoStub

unfoldable pub chromo_stub : ChromoStub → Given
chromo_stub resolve_muts_unsafety = falsity
chromo_stub compact_chromo = falsity
chromo_stub compact_chromo_at = falsity
chromo_stub has_parent_modifs = falsity
chromo_stub copy_modifs_from_parent = no_value
chromo_stub has_modifs = falsity
chromo_stub copy_parent_modifs_to_comp = no_value
chromo_stub rebase_uri_to_int_node = falsity

-- MelemPx: methods on observers and owned components.
pub data ObserverStub : Type 0 where
  on_comp_deleting on_comp_adding on_comp_changed on_content_changed : ObserverStub
  on_comp_renamed is_comp move_comp move_comp_by append_comp : ObserverStub

unfoldable pub observer_stub : ObserverStub → Given
observer_stub on_comp_deleting = no_value
observer_stub on_comp_adding = no_value
observer_stub on_comp_changed = falsity
observer_stub on_content_changed = falsity
observer_stub on_comp_renamed = falsity
observer_stub is_comp = falsity
observer_stub move_comp = falsity
observer_stub move_comp_by = falsity
observer_stub append_comp = falsity

-- MelemPx: methods on parents and children.
pub data LinkStub : Type 0 where
  on_child_deleting on_child_renamed append_child remove_child get_parent_const : LinkStub
  on_parent_deleting set_parent_name set_parent : LinkStub

unfoldable pub link_stub : LinkStub → Given
link_stub on_child_deleting = no_value
link_stub on_child_renamed = falsity
link_stub append_child = falsity
link_stub remove_child = no_value
link_stub get_parent_const = null
link_stub on_parent_deleting = no_value
link_stub set_parent_name = no_value
link_stub set_parent = no_value

-- MelemPx: methods on interfaces.
pub data IfaceStub : Type 0 where
  get_sific get_sifi get_sifi_by_uri get_ifi get_cursor do_get_obj : IfaceStub

unfoldable pub iface_stub : IfaceStub → Given
iface_stub get_sific = null
iface_stub get_sifi = null
iface_stub get_sifi_by_uri = null
iface_stub get_ifi = empty_range
iface_stub get_cursor = unreturned
iface_stub do_get_obj = null
