-- ===== src/Provider.antt =====
-- dmas/daaprov.cpp: DaaProv, the provider of the agents.
pub mod Nodes
pub mod Runs
use fap2_srv.Prelude.{
  ℕ, suc, ◌+◌, ◌≤◌, ◌==◌, ◌||◌, if◌then◌else◌, Text, text_eq, text_eq_self, codes, Map, has, at,
  insert, has-at, at-insert, text_key, Option, none, some, Option-cases, Bool-cases, inl, inr, List,
  [], ◌∷◌, ◌++◌, Bool, true, false, ◌≡◌, refl, ap, sym, ◌∙◌, arith,
}
use fap2_srv.Server.{update}

-- The classes of agents.
pub data AgentType : Type 0 where
  renv renvu : AgentType

-- ARenv::Type() and ARenvu::Type()
abbrev pub type_name : AgentType → Text
type_name renv = codes "ARenv"
type_name renvu = codes "ARenvu"

-- An agent: its class and its name.
pub record AgentNode : Type 0 where
  pub kind : AgentType
  pub name : Text

-- The agents by their addresses, iReg, and the children that AppendChild gave to an element of
-- another provider, as pairs of parent and child.
pub record DaaProv : Type 0 where
  pub nodes : ℕ → Option AgentNode
  pub count : ℕ
  pub reg : Map Text ℕ
  pub children : List (ℕ × ℕ)

-- The class that is compared with a text.
unfoldable pub type_of : Text → Option AgentType
type_of text =
    if text_eq text (type_name renv)
    then some renv
    else if text_eq text (type_name renvu)
    then some renvu
    else none

-- new ARenv and new ARenvu
unfoldable pub new_node : AgentType → Text → DaaProv → ℕ × DaaProv
new_node kind name s = (
  s.count,
  record s {
    nodes = update s.nodes s.count (some (record { kind = kind; name = name }));
    count = suc s.count;
  },
)

-- CreateNode
unfoldable pub create_node : Text → Text → DaaProv → Option ℕ × DaaProv
unfolding type_of new_node
create_node type name s = elim (type_of type) [
  | none ↦ (none, s)
  | some kind ↦ let (a, t) = new_node kind name s in (some a, t)
]

-- parent->AppendChild(res)
abbrev pub append_child : Option ℕ → ℕ → DaaProv → DaaProv
append_child none a s = s
append_child (some parent) a s = record s { children = s.children ++ (parent, a) ∷ [] }

-- The end of GetNode for a new node, which is named after its class.
unfoldable pub register_node : Option ℕ → Text → AgentType → DaaProv → Option ℕ × DaaProv
unfolding new_node
register_node parent uri kind s =
    let (a, t) = new_node kind (type_name kind) s in
    let u = append_child parent a t in (some a, record u { reg = insert uri a u.reg })

-- GetNode; `parent` is what the provider of the environment gives for "Elem".
unfoldable pub get_node : Option ℕ → Text → DaaProv → Option ℕ × DaaProv
unfolding type_of register_node
get_node parent uri s = elim (at uri s.reg) [
  | some a ↦ (some a, s)
  | none ↦ elim (type_of uri) [ none ↦ (none, s) | some kind ↦ register_node parent uri kind s ]
]

-- AppendNodesInfo
unfoldable pub append_nodes_info : List Text → List Text
append_nodes_info info = info ++ type_name renv ∷ []
