-- ===== src/Config/Yaml/Parse.antt =====
-- internal/config/yaml.go: parseYAMLTree, the loop over the lines.
use ollama_exporter.Base.{ltb, ◌==◌, if◌then◌else◌, length, Bytes, ℕ, suc, List, [], ◌∷◌}
use ollama_exporter.Base.Results.{Result, ok, err}
use ollama_exporter.Config.Yaml.Tree.{Node, map_val, no_entries}
use ollama_exporter.Config.Yaml.Lex.{lex_line}
use ollama_exporter.Config.Yaml.Place.{
  Frame, Stack, attach, by_item, YamlError, token_too_long, place,
}

-- bufio.ScanLines: what stands before each line feed, and what follows the last one unless it is
-- empty. `line` is what the line holds so far, in reverse.
unfoldable pub reversed : Bytes → Bytes → Bytes
reversed [] out = out
reversed (c ∷ cs) out = reversed cs (c ∷ out)

unfoldable pub scan_lines : Bytes → Bytes → List Bytes
unfolding reversed
scan_lines [] [] = []
scan_lines (d ∷ line) [] = reversed (d ∷ line) [] ∷ []
scan_lines line (c ∷ cs) =
    let whole = reversed line [] ∷ scan_lines [] cs in
    let more = scan_lines (c ∷ line) cs in if c == 10 then whole else more

-- A carriage return at the end of a line is dropped.
unfoldable pub drop_cr : Bytes → Bytes
drop_cr [] = []
drop_cr (c ∷ []) = if c == 13 then [] else c ∷ []
drop_cr (c ∷ d ∷ cs) = c ∷ drop_cr (d ∷ cs)

-- The largest token of the scanner's buffer.
abbrev pub max_token : ℕ
max_token = 1048576

unfoldable pub run : ℕ → List Bytes → Stack → Result YamlError Stack
run line_no [] s = ok s
run line_no (l ∷ ls) s =
    if ltb (length l) max_token
    then elim (place (suc line_no) (lex_line (drop_cr l)) s) [
      | err e ↦ err e
      | ok t ↦ run (suc line_no) ls t
    ]
    else err token_too_long

-- The root's node once every frame is attached.
unfoldable pub finish : Frame → List Frame → Node
finish f [] = f.n
finish f (g ∷ below) = finish (attach f g) below

abbrev pub root : Frame
root = record { indent = 0; link = by_item; n = map_val no_entries }

unfoldable pub finished : Result YamlError Stack → Result YamlError Node
unfolding finish
finished (ok (f, below)) = ok (finish f below)
finished (err e) = err e

unfoldable pub parse_yaml_tree : Bytes → Result YamlError Node
unfolding run finished scan_lines
parse_yaml_tree text = finished (run 0 (scan_lines [] text) (root, []))
