-- ===== src/Config/Yaml/Tree.antt =====
-- internal/config/yaml.go: the nodes of a parsed tree.
use ollama_exporter.Base.{Bytes, Bool, true, false, []}

-- A node is a scalar, a map or a list, or none of them yet: a key that opens a block.
mutual
  pub data Node : Type 0 where
    undetermined : Node
    scalar : Bytes → Node
    map_val : Entries → Node
    list_val : Items → Node

  pub data Entries : Type 0 where
    no_entries : Entries
    entry : Bytes → Node → Entries → Entries

  pub data Items : Type 0 where
    no_items : Items
    item : Node → Items → Items

unfoldable pub is_map : Node → Bool
is_map (map_val es) = true
is_map _ = false

unfoldable pub is_list : Node → Bool
is_list (list_val xs) = true
is_list _ = false

unfoldable pub as_string : Node → Bytes
as_string (scalar s) = s
as_string _ = []

-- `append(n.mapVal, mapEntry{k, v})` and `append(n.listVal, v)`.
unfoldable pub append_entry : Entries → Bytes → Node → Entries
append_entry no_entries k v = entry k v no_entries
append_entry (entry j w es) k v = entry j w (append_entry es k v)

unfoldable pub append_item : Items → Node → Items
append_item no_items v = item v no_items
append_item (item w xs) v = item w (append_item xs v)
