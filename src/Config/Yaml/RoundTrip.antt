-- ===== src/Config/Yaml/RoundTrip.antt =====
-- The text of a document parses into its tree.
use ollama_exporter.Base.{
  Bytes, ℕ, ◌+◌, ◌%◌, ◌≡◌, refl, ap, ◌∙◌, subst, false, List, [], ◌∷◌, arith,
}
use ollama_exporter.Base.Results.{ok}
use ollama_exporter.Config.Yaml.Tree.{
  Node, undetermined, scalar, map_val, list_val, Entries, no_entries, entry, Items, no_items, item,
  is_list, is_map,
}
use ollama_exporter.Config.Yaml.Lex.{key_item, plain_item, key_value}
use ollama_exporter.Config.Yaml.Place.{
  Frame, Stack, pop, attach, hang, add_entry, add_item, by_key, by_item,
}
use ollama_exporter.Config.Yaml.Parse.{run, finished, root, parse_yaml_tree}
use ollama_exporter.Config.Yaml.Printed.{
  Block, Seq, end_block, value_of, block_of, list_of, end_seq, plain, object, spaces, quoted,
  value_body, key_body, dash, block_lines, seq_lines, unlines, entries_of, items_of, map_or_none,
  list_or_none, IsBlock, IsSeq,
}
use ollama_exporter.Config.Yaml.Placing.{
  Stops, pop-Stops, finish-pop, add_entries, add_items, add_entries-map, add_entries-first,
  add_items-first,
}
use ollama_exporter.Config.Yaml.Reading.{
  lex_line-value, lex_line-key, lex_line-plain, lex_line-object,
}
use ollama_exporter.Config.Yaml.Scanning.{scan_lines-unlines, block_lines-AllLines}
use ollama_exporter.Config.Yaml.Steps.{
  Stops-node, with_node, Reads, Reads-node, line-Reads, nested-Reads, place-value, place-open,
  place-plain, place-object,
}

is_list-add_entry : (k : Bytes) (v n : Node) → is_list (add_entry k v n) ≡ false
unfolding add_entry is_list
is_list-add_entry k v (map_val es) = refl
is_list-add_entry k v _ = refl

is_map-add_item : (v n : Node) → is_map (add_item v n) ≡ false
unfolding add_item is_map
is_map-add_item v (list_val xs) = refl
is_map-add_item v _ = refl

add_entries-none : (es : Entries) → add_entries undetermined es ≡ map_or_none es
unfolding add_entries add_entry
add_entries-none no_entries = refl
add_entries-none (entry k v es) = add_entries-first k v es

add_items-none : (xs : Items) → add_items undetermined xs ≡ list_or_none xs
unfolding add_items add_item
add_items-none no_items = refl
add_items-none (item v xs) = add_items-first v xs

abbrev opened : ℕ → Bytes → Frame
opened i k = record { indent = i; link = by_key k; n = undetermined }

abbrev opened_item : ℕ → Bytes → Bytes → Frame
opened_item i k v = record {
  indent = i;
  link = by_item;
  n = map_val (entry k (scalar v) no_entries);
}

abbrev BlockReads : Block → Type 0
BlockReads b =
    (i : ℕ) (s : Stack) (p : Frame) (below : List Frame)
    → i % 2 ≡ 0
    → IsBlock i b
    → pop i s.0 s.1 ≡ (p, below)
    → Stops i p below
    → is_list p.n ≡ false
    → Reads i (block_lines i b) s p below (add_entries p.n (entries_of b))

abbrev SeqReads : Seq → Type 0
SeqReads xs =
    (i : ℕ) (s : Stack) (p : Frame) (below : List Frame)
    → i % 2 ≡ 0
    → IsSeq i xs
    → pop i s.0 s.1 ≡ (p, below)
    → Stops i p below
    → is_map p.n ≡ false
    → Reads i (seq_lines i xs) s p below (add_items p.n (items_of xs))

mutual
  unfolding block_lines entries_of IsBlock add_entries add_items hang attach is_list is_map

  block-Reads : (b : Block) → BlockReads b
  block-Reads end_block i s p below even h e st l = record {
    at_line = λ num rest. (num, s, refl, e);
  }
  block-Reads (value_of k v b) i s p below even h e st l =
      let p' = with_node p (add_entry k (scalar v) p.n) in
      let st' = Stops-node i p (add_entry k (scalar v) p.n) below st in
      line-Reads (spaces i (value_body k v)) (key_value i k (quoted v)) s (p', below) h.2
        (lex_line-value i even k v h.0 h.1) (λ n. place-value i p below s e k v n l)
        (Reads-node (add_entry k (scalar v) p.n) (
          block-Reads b i (p', below) p' below even h.3 (pop-Stops i p' below st') st'
            (is_list-add_entry k (scalar v) p.n)))
  block-Reads (block_of k sub b) i s p below even h e st l =
      let f = opened i k in
      let w = map_or_none (entries_of sub) in
      line-Reads (spaces i (key_body k)) (key_value i k []) s (f, p ∷ below) h.1
        (lex_line-key i even k h.0) (λ n. place-open i p below s e k n l)
        (nested-Reads i p below (block_lines i b) f refl st
          (subst (Reads (2 + i) (block_lines (2 + i) sub) (f, p ∷ below) f (p ∷ below))
            (add_entries-none (entries_of sub))
            (block-Reads sub (2 + i) (f, p ∷ below) f (p ∷ below) (omega arith) h.2
              (pop-Stops (2 + i) f (p ∷ below) (omega arith)) (omega arith) refl))
          (λ t q.
            block-Reads b i t (with_node p (add_entry k w p.n)) below even h.3 q
              (Stops-node i p (add_entry k w p.n) below st) (is_list-add_entry k w p.n)))
  block-Reads (list_of k xs b) i s p below even h e st l =
      let f = opened i k in
      let w = list_or_none (items_of xs) in
      line-Reads (spaces i (key_body k)) (key_value i k []) s (f, p ∷ below) h.1
        (lex_line-key i even k h.0) (λ n. place-open i p below s e k n l)
        (nested-Reads i p below (block_lines i b) f refl st
          (subst (Reads (2 + i) (seq_lines (2 + i) xs) (f, p ∷ below) f (p ∷ below))
            (add_items-none (items_of xs))
            (seq-Reads xs (2 + i) (f, p ∷ below) f (p ∷ below) (omega arith) h.2
              (pop-Stops (2 + i) f (p ∷ below) (omega arith)) (omega arith) refl))
          (λ t q.
            block-Reads b i t (with_node p (add_entry k w p.n)) below even h.3 q
              (Stops-node i p (add_entry k w p.n) below st) (is_list-add_entry k w p.n)))

  seq-Reads : (xs : Seq) → SeqReads xs
  seq-Reads end_seq i s p below even h e st l = record { at_line = λ num rest. (num, s, refl, e) }
  seq-Reads (plain v xs) i s p below even h e st l =
      let p' = with_node p (add_item (scalar v) p.n) in
      let st' = Stops-node i p (add_item (scalar v) p.n) below st in
      line-Reads (spaces i (dash (quoted v))) (plain_item i (quoted v)) s (p', below) h.1
        (lex_line-plain i even v h.0) (λ n. place-plain i p below s e v n l)
        (Reads-node (add_item (scalar v) p.n) (
          seq-Reads xs i (p', below) p' below even h.2 (pop-Stops i p' below st') st'
            (is_map-add_item (scalar v) p.n)))
  seq-Reads (object k v b xs) i s p below even h e st l =
      let f = opened_item i k v in
      let w = map_val (entry k (scalar v) (entries_of b)) in
      line-Reads (spaces i (dash (value_body k v))) (key_item i k (quoted v)) s (f, p ∷ below) h.2
        (lex_line-object i even k v h.0 h.1) (λ n. place-object i p below s e k v n l)
        (nested-Reads i p below (seq_lines i xs) f refl st
          (subst (Reads (2 + i) (block_lines (2 + i) b) (f, p ∷ below) f (p ∷ below))
            (add_entries-first k (scalar v) (entries_of b))
            (block-Reads b (2 + i) (f, p ∷ below) f (p ∷ below) (omega arith) h.3
              (pop-Stops (2 + i) f (p ∷ below) (omega arith)) (omega arith) refl))
          (λ t q.
            seq-Reads xs i t (with_node p (add_item w p.n)) below even h.4 q
              (Stops-node i p (add_item w p.n) below st) (is_map-add_item w p.n)))

abbrev pub tree_of : Block → Node
tree_of b = map_val (entries_of b)

abbrev pub text_of : Block → Bytes
text_of b = unlines (block_lines 0 b [])

root-Reads :
    (b : Block)
    → IsBlock 0 b
    → Reads 0 (block_lines 0 b) (root, []) root [] (add_entries root.n (entries_of b))
unfolding is_list
root-Reads b h = block-Reads b 0 (root, []) root [] refl h (pop-Stops 0 root [] tt) tt refl

finished-node :
    (m : ℕ) (t : Stack) {f : Frame} → pop 0 t.0 t.1 ≡ (f, []) → finished (run m [] t) ≡ ok f.n
unfolding run finished
finished-node m t q = ap (λ (n : Node). ok n) (finish-pop t.0 t.1 ∙ ap (λ (u : Stack). u.0.n) q)

-- A document of keys with values, blocks and lists of values or objects, at any depth, each level
-- indented by two spaces and each value in double quotes, parses into exactly its tree: keys are of
-- printable bytes but `:` and `#` and start with no dash, values hold no line feed and no ` #`,
-- values in a list hold no colon either, and each line is shorter than the scanner's buffer.
pub parse_yaml_tree-text : (b : Block) → IsBlock 0 b → parse_yaml_tree (text_of b) ≡ ok (tree_of b)
unfolding parse_yaml_tree
parse_yaml_tree-text b h =
    let (m, t, r, q) = (root-Reads b h).at_line 0 [] in
    ap (λ (ls : List Bytes). finished (run 0 ls (root, [])))
      (scan_lines-unlines (block_lines 0 b []) (block_lines-AllLines b 0 [] h tt))
    ∙ ap finished r
    ∙ finished-node m t q
    ∙ ap (λ (n : Node). ok n) (add_entries-map (entries_of b))
