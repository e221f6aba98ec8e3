-- ===== src/ConfigData.antt =====
-- core/ctypes/ctypes.go and core/cdata: configuration values, nodes that hold tables of them, and
-- the tree of such nodes. A Go map is a reference: a node holds the address of its table, and a
-- copy of the node holds the same address.
pub mod Merging
pub mod Filling
pub mod Json
mod Samples
use mathlib.Core.List.{lookup}
use snap.Base.{ℕ, ◌+◌, Bool, List, [], ◌∷◌, Option, none, some, Text, text_discrete, ℕ_discrete}
use snap.Base.Int.{ℤ}
use snap.Base.Float.{Float64}
use snap.Base.Map.{put, delete}
use snap.ConfigTree.{ConfigTree}
use snap.ConfigTree

pub data ConfigValue : Type 0 where
  config_int : ℤ → ConfigValue
  config_str : Text → ConfigValue
  config_float : Float64 → ConfigValue
  config_bool : Bool → ConfigValue

abbrev pub Table : Type 0
Table = List (Text × ConfigValue)

pub record Store : Type 0 where
  pub next : ℕ
  pub tables : List (ℕ × Table)

pub record ConfigDataNode : Type 0 where
  pub table : ℕ

unfoldable pub table_of : Store → ConfigDataNode → Table
table_of s c = elim (lookup ℕ_discrete c.table s.tables) [ none ↦ [] | some t ↦ t ]

unfoldable pub set_table : Store → ConfigDataNode → Table → Store
set_table s c t = record s { tables = put ℕ_discrete c.table t s.tables }

unfoldable pub from_table : Store → Table → Store × ConfigDataNode
from_table s t = (
  record { next = s.next + 1; tables = put ℕ_discrete s.next t s.tables },
  record { table = s.next },
)

unfoldable pub new_node : Store → Store × ConfigDataNode
unfolding from_table
new_node s = from_table s []

unfoldable pub add_item : Store → ConfigDataNode → Text → ConfigValue → Store
unfolding table_of set_table
add_item s c [] v = s
add_item s c (r ∷ k) v = set_table s c (put text_discrete (r ∷ k) v (table_of s c))

unfoldable pub add_items : Store → ConfigDataNode → Table → Store
add_items s c [] = s
add_items s c ((k, v) ∷ t) = add_item (add_items s c t) c k v

-- The receiver is a copy, whose table is that of the original.
unfoldable pub merge : Store → ConfigDataNode → ConfigDataNode → Store × ConfigDataNode
merge s c n = (add_items s c (table_of s n), c)

unfoldable pub put_all : Table → Table → Table
put_all [] t = t
put_all ((k, v) ∷ u) t = put text_discrete k v (put_all u t)

-- The node that is merged is another one than the receiver, for a node waits on its own mutex.
unfoldable pub reverse_merge_in_place :
    Store → ConfigDataNode → ConfigDataNode → Store × ConfigDataNode
reverse_merge_in_place s c n = from_table s (put_all (table_of s c) (put_all (table_of s n) []))

unfoldable pub reverse_merge : Store → ConfigDataNode → ConfigDataNode → Store × ConfigDataNode
reverse_merge s c n =
    let (s', copy) = new_node s in
    (set_table s' copy (put_all (table_of s c) (put_all (table_of s n) [])), copy)

unfoldable pub add_missing : Table → Table → Table
add_missing [] t = t
add_missing ((name, def) ∷ defaults) t =
    add_missing defaults
      (elim (lookup text_discrete name t) [ none ↦ put text_discrete name def t | some _ ↦ t ])

unfoldable pub apply_defaults : Store → ConfigDataNode → Table → Store
apply_defaults s c defaults = set_table s c (add_missing defaults (table_of s c))

unfoldable pub delete_item : Store → ConfigDataNode → Text → Store
delete_item s c k = set_table s c (delete text_discrete k (table_of s c))

-- Get of the tree of nodes.
unfoldable pub get_config :
    Store → List Text → ConfigTree ConfigDataNode → Store × Option ConfigDataNode
unfolding ConfigTree.get
get_config s ns c = ConfigTree.get merge s ns c
