-- ===== src/Config/Yaml/Place.antt =====
-- internal/config/yaml.go: a line's place in the tree. The last child of a frame's node is the node
-- of the frame above it, which the source reaches by a pointer: here a frame holds the way to it,
-- and is attached when it is popped.
use ollama_exporter.Base.{leb, if◌then◌else◌, Bytes, ℕ, List, [], ◌∷◌}
use ollama_exporter.Base.Results.{Result, ok, err}
use ollama_exporter.Config.Yaml.Tree.{
  Node, undetermined, scalar, map_val, list_val, no_entries, entry, no_items, item, is_map, is_list,
  append_entry, append_item,
}
use ollama_exporter.Config.Yaml.Lex.{
  Line, blank, bad_indent, bad_entry, open_item, key_item, plain_item, key_value, unquote_yaml,
}

unfoldable pub scalar_from_string : Bytes → Node
unfolding unquote_yaml
scalar_from_string v = scalar (unquote_yaml v)

pub data YamlError : Type 0 where
  odd_indent list_under_map cannot_parse key_under_list : ℕ → YamlError
  token_too_long : YamlError

-- How a frame's node hangs below the node of the frame under it.
pub data Link : Type 0 where
  by_key : Bytes → Link
  by_item : Link

pub record Frame : Type 0 where
  pub indent : ℕ
  pub link : Link
  pub n : Node

-- The top frame and those under it. The lowest is the root, whose indent is never read.
abbrev pub Stack : Type 0
Stack = Frame × List Frame

unfoldable pub add_entry : Bytes → Node → Node → Node
unfolding append_entry
add_entry k v (map_val es) = map_val (append_entry es k v)
add_entry k v _ = map_val (entry k v no_entries)

unfoldable pub add_item : Node → Node → Node
unfolding append_item
add_item v (list_val xs) = list_val (append_item xs v)
add_item v _ = list_val (item v no_items)

unfoldable pub hang : Link → Node → Node → Node
unfolding add_entry add_item
hang (by_key k) v parent = add_entry k v parent
hang by_item v parent = add_item v parent

unfoldable pub attach : Frame → Frame → Frame
unfolding hang
attach f g = record g { n = hang f.link f.n g.n }

-- Pops until the top frame is the parent of this indent; the root stays.
unfoldable pub pop : ℕ → Frame → List Frame → Stack
pop i f [] = (f, [])
pop i f (g ∷ below) =
    let popped = pop i (attach f g) below in if leb i f.indent then popped else (f, g ∷ below)

-- The line's node under the parent. A node that is kept open becomes the top frame.
unfoldable pub put_item : ℕ → Line → Frame → List Frame → Stack
unfolding scalar_from_string
put_item i (key_item _ k v) p below = (
  record { indent = i; link = by_item; n = map_val (entry k (scalar_from_string v) no_entries) },
  p ∷ below,
)
put_item i (plain_item _ v) p below =
    (record p { n = add_item (scalar (unquote_yaml v)) p.n }, below)
put_item i _ p below = (record p { n = add_item (map_val no_entries) p.n }, below)

unfoldable pub put_entry : ℕ → Bytes → Bytes → Frame → List Frame → Stack
unfolding scalar_from_string
put_entry i k [] p below = (record { indent = i; link = by_key k; n = undetermined }, p ∷ below)
put_entry i k (c ∷ cs) p below =
    (record p { n = add_entry k (scalar_from_string (c ∷ cs)) p.n }, below)

unfoldable pub place_item : ℕ → ℕ → Line → Stack → Result YamlError Stack
unfolding put_item is_map
place_item line_no i l (p, below) =
    if is_map p.n then err (list_under_map line_no) else ok (put_item i l p below)

unfoldable pub place_entry : ℕ → ℕ → Bytes → Bytes → Stack → Result YamlError Stack
unfolding put_entry is_list
place_entry line_no i k v (p, below) =
    if is_list p.n then err (key_under_list line_no) else ok (put_entry i k v p below)

unfoldable pub place : ℕ → Line → Stack → Result YamlError Stack
unfolding place_item place_entry pop
place line_no blank s = ok s
place line_no bad_indent s = err (odd_indent line_no)
place line_no bad_entry s = err (cannot_parse line_no)
place line_no (open_item i) (f, below) = place_item line_no i (open_item i) (pop i f below)
place line_no (key_item i k v) (f, below) = place_item line_no i (key_item i k v) (pop i f below)
place line_no (plain_item i v) (f, below) = place_item line_no i (plain_item i v) (pop i f below)
place line_no (key_value i k v) (f, below) = place_entry line_no i k v (pop i f below)
