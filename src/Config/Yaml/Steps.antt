-- ===== src/Config/Yaml/Steps.antt =====
-- What a printed line, and lines further in, do to the frames.
use ollama_exporter.Base.{
  lt→ltb, Bytes, ℕ, suc, ◌+◌, ◌≡◌, sym, ap, ◌∙◌, false, List, [], ◌∷◌, arith,
}
use ollama_exporter.Base.Results.{ok}
use ollama_exporter.Config.Yaml.Tree.{
  Node, undetermined, scalar, map_val, no_entries, entry, is_list, is_map,
}
use ollama_exporter.Config.Yaml.Lex.{Line, key_item, plain_item, key_value, lex_line}
use ollama_exporter.Config.Yaml.Place.{
  Frame, Stack, pop, attach, place, place_entry, place_item, put_entry, put_item, add_entry,
  add_item, by_key, by_item, scalar_from_string,
}
use ollama_exporter.Config.Yaml.Parse.{run, drop_cr}
use ollama_exporter.Config.Yaml.Printed.{quoted, Fits}
use ollama_exporter.Config.Yaml.Placing.{pop-pop, Stops, pop-Stops}
use ollama_exporter.Config.Yaml.Trimmed.{unquote_yaml-quoted}

-- A line that fits is read and placed.
run-line :
    (n : ℕ) (l : Bytes) (ls : List Bytes) (s : Stack) {ln : Line} {t : Stack}
    → Fits l
    → lex_line (drop_cr l) ≡ ln
    → place (suc n) ln s ≡ ok t
    → run n (l ∷ ls) s ≡ run (suc n) ls t
unfolding run
run-line n l ls s f e p = rw (lt→ltb _ _ f, e, p)

-- A frame whose node has taken on more entries.
abbrev pub with_node : Frame → Node → Frame
with_node p v = record p { n = v }

-- Reading some lines in front of others at a frame that an indent stops at: what is left to read,
-- and that popping to the indent leaves the frame with a new node.
pub record Reads (i : ℕ) (lines : List Bytes → List Bytes) (s : Stack) (p : Frame)
    (below : List Frame) (v : Node) : Type 0 where
  pub at_line :
      (num : ℕ) (rest : List Bytes)
      → (m : ℕ) × (t : Stack) × (run num (lines rest) s ≡ run m rest t)
        × (pop i t.0 t.1 ≡ (with_node p v, below))

-- The node before is of no account.
pub Reads-node :
    {i : ℕ} {p : Frame} {below : List Frame} {v : Node} (u : Node) {lines : List Bytes → List Bytes}
    {s : Stack}
    → Reads i lines s (with_node p u) below v
    → Reads i lines s p below v
Reads-node u rd = record { at_line = rd.at_line }

-- One line more in front.
pub line-Reads :
    {i : ℕ} {p : Frame} {below : List Frame} {v : Node} (l : Bytes) (ln : Line)
    {lines : List Bytes → List Bytes} (s s' : Stack)
    → Fits l
    → lex_line (drop_cr l) ≡ ln
    → ((n : ℕ) → place n ln s ≡ ok s')
    → Reads i lines s' p below v
    → Reads i (λ r. l ∷ lines r) s p below v
line-Reads l ln {lines} s s' f e pl rd = record {
  at_line = λ num rest.
      let (m, t, r, q) = rd.at_line (suc num) rest in
      (m, t, run-line num l (lines rest) s f e (pl (suc num)) ∙ r, q);
}

Stops-attach :
    (i : ℕ) (f p : Frame) (below : List Frame) → Stops i p below → Stops i (attach f p) below
unfolding attach
Stops-attach i f p [] h = tt
Stops-attach i f p (g ∷ below) h = h

pub Stops-node :
    (i : ℕ) (p : Frame) (v : Node) (below : List Frame)
    → Stops i p below
    → Stops i (with_node p v) below
Stops-node i p v [] h = tt
Stops-node i p v (g ∷ below) h = h

pop-attach :
    (i : ℕ) (f p : Frame) (below : List Frame)
    → f.indent ≡ i
    → pop i f (p ∷ below) ≡ pop i (attach f p) below
unfolding pop
pop-attach i f p below h = ground arith

-- From one indent further in to this one: the frame on top is attached.
pop-outer :
    (i : ℕ) (t : Stack) (f p : Frame) (below : List Frame)
    → pop (2 + i) t.0 t.1 ≡ (f, p ∷ below)
    → f.indent ≡ i
    → Stops i p below
    → pop i t.0 t.1 ≡ (attach f p, below)
pop-outer i t f p below e h st =
    sym (pop-pop i (2 + i) t.0 t.1 (omega arith))
    ∙ ap (λ (u : Stack). pop i u.0 u.1) e
    ∙ pop-attach i f p below h
    ∙ pop-Stops i (attach f p) below (Stops-attach i f p below st)

-- Lines of a frame that is on top, then others.
pub nested-Reads :
    (i : ℕ) (p : Frame) (below : List Frame) {inner : List Bytes → List Bytes}
    (outer : List Bytes → List Bytes) {s : Stack} {w v : Node} (f : Frame)
    → f.indent ≡ i
    → Stops i p below
    → Reads (2 + i) inner s f (p ∷ below) w
    → ((t : Stack)
        → pop i t.0 t.1 ≡ (attach (with_node f w) p, below)
        → Reads i outer t (attach (with_node f w) p) below v)
    → Reads i (λ r. inner (outer r)) s p below v
unfolding attach
nested-Reads i p below outer {w = w} f h st rd next = record {
  at_line = λ num rest.
      let (m, t, r, q) = rd.at_line num (outer rest) in
      let (m', t', r', q') =
        (next t (pop-outer i t (with_node f w) p below q h st)).at_line m rest in
      (m', t', r ∙ r', q');
}

module _ (i : ℕ) (p : Frame) (below : List Frame) (s : Stack) (e : pop i s.0 s.1 ≡ (p, below)) where
  pub place-value :
      (k v : Bytes) (n : ℕ)
      → is_list p.n ≡ false
      → place n (key_value i k (quoted v)) s ≡ ok (with_node p (add_entry k (scalar v) p.n), below)
  unfolding place place_entry put_entry scalar_from_string
  place-value k v n l = rw (e, l, unquote_yaml-quoted v)

  pub place-open :
      (k : Bytes) (n : ℕ)
      → is_list p.n ≡ false
      → place n (key_value i k []) s
        ≡ ok (record { indent = i; link = by_key k; n = undetermined }, p ∷ below)
  unfolding place place_entry put_entry
  place-open k n l = rw (e, l)

  pub place-plain :
      (v : Bytes) (n : ℕ)
      → is_map p.n ≡ false
      → place n (plain_item i (quoted v)) s ≡ ok (with_node p (add_item (scalar v) p.n), below)
  unfolding place place_item put_item
  place-plain v n l = rw (e, l, unquote_yaml-quoted v)

  pub place-object :
      (k v : Bytes) (n : ℕ)
      → is_map p.n ≡ false
      → place n (key_item i k (quoted v)) s
        ≡ ok (
          record { indent = i; link = by_item; n = map_val (entry k (scalar v) no_entries) },
          p ∷ below,
        )
  unfolding place place_item put_item scalar_from_string
  place-object k v n l = rw (e, l, unquote_yaml-quoted v)
