-- ===== src/Config/Yaml/Placing.antt =====
-- How frames are popped, and what a block's entries add to a frame's node.
use ollama_exporter.Base.{
  leb, Bool-cases, Bytes, ℕ, ◌≤◌, ◌<◌, ◌≡◌, refl, sym, ap, ◌∙◌, inl, inr, List, [], ◌∷◌, arith,
}
use ollama_exporter.Config.Yaml.Tree.{
  Node, map_val, list_val, Entries, no_entries, entry, Items, no_items, item, append_entry,
  append_item,
}
use ollama_exporter.Config.Yaml.Place.{Frame, pop, attach, add_entry, add_item}
use ollama_exporter.Config.Yaml.Parse.{finish}

pub pop-pop :
    (j i : ℕ) (f : Frame) (below : List Frame)
    → j ≤ i
    → pop j (pop i f below).0 (pop i f below).1 ≡ pop j f below
unfolding pop
pop-pop j i f [] h = refl
pop-pop j i f (g ∷ below) h = elim (Bool-cases (leb i f.indent)) [
  | inl e ↦ rw e (pop-pop j i (attach f g) below h ∙ ground arith)
  | inr e ↦ rw e
]

-- A frame at which an indent stops: the root, or one further out.
abbrev pub Stops : ℕ → Frame → List Frame → Type 0
Stops i f [] = Unit
Stops i f (g ∷ below) = f.indent < i

pub pop-Stops :
    (i : ℕ) (f : Frame) (below : List Frame) → Stops i f below → pop i f below ≡ (f, below)
unfolding pop
pop-Stops i f [] h = refl
pop-Stops i f (g ∷ below) h = ground arith

pub finish-pop : (f : Frame) (below : List Frame) → finish f below ≡ (pop 0 f below).0.n
unfolding finish pop
finish-pop f [] = refl
finish-pop f (g ∷ below) = finish-pop (attach f g) below ∙ ground arith

unfoldable pub add_entries : Node → Entries → Node
add_entries n no_entries = n
add_entries n (entry k v es) = add_entries (add_entry k v n) es

unfoldable pub add_items : Node → Items → Node
add_items n no_items = n
add_items n (item v xs) = add_items (add_item v n) xs

join_entries : Entries → Entries → Entries
join_entries no_entries fs = fs
join_entries (entry k v es) fs = entry k v (join_entries es fs)

join_items : Items → Items → Items
join_items no_items fs = fs
join_items (item v es) fs = item v (join_items es fs)

join-append_entry :
    (es : Entries) (k : Bytes) (v : Node) (fs : Entries)
    → join_entries (append_entry es k v) fs ≡ join_entries es (entry k v fs)
unfolding join_entries append_entry
join-append_entry no_entries k v fs = refl
join-append_entry (entry j w es) k v fs = ap (entry j w) (join-append_entry es k v fs)

join-append_item :
    (es : Items) (v : Node) (fs : Items)
    → join_items (append_item es v) fs ≡ join_items es (item v fs)
unfolding join_items append_item
join-append_item no_items v fs = refl
join-append_item (item w es) v fs = ap (item w) (join-append_item es v fs)

join_entries-nil : (es : Entries) → join_entries es no_entries ≡ es
unfolding join_entries
join_entries-nil no_entries = refl
join_entries-nil (entry k v es) = ap (entry k v) (join_entries-nil es)

join_items-nil : (es : Items) → join_items es no_items ≡ es
unfolding join_items
join_items-nil no_items = refl
join_items-nil (item v es) = ap (item v) (join_items-nil es)

add_entries-join : (es fs : Entries) → add_entries (map_val es) fs ≡ map_val (join_entries es fs)
unfolding add_entries add_entry
add_entries-join es no_entries = ap map_val (sym (join_entries-nil es))
add_entries-join es (entry k v fs) =
    add_entries-join (append_entry es k v) fs ∙ ap map_val (join-append_entry es k v fs)

add_items-join : (es fs : Items) → add_items (list_val es) fs ≡ list_val (join_items es fs)
unfolding add_items add_item
add_items-join es no_items = ap list_val (sym (join_items-nil es))
add_items-join es (item v fs) =
    add_items-join (append_item es v) fs ∙ ap list_val (join-append_item es v fs)

pub add_entries-map : (es : Entries) → add_entries (map_val no_entries) es ≡ map_val es
unfolding join_entries
add_entries-map es = add_entries-join no_entries es

pub add_entries-first :
    (k : Bytes) (v : Node) (es : Entries)
    → add_entries (map_val (entry k v no_entries)) es ≡ map_val (entry k v es)
unfolding join_entries
add_entries-first k v es = add_entries-join (entry k v no_entries) es

pub add_items-first :
    (v : Node) (es : Items) → add_items (list_val (item v no_items)) es ≡ list_val (item v es)
unfolding join_items
add_items-first v es = add_items-join (item v no_items) es
