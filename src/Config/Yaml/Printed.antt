-- ===== src/Config/Yaml/Printed.antt =====
-- Documents of the YAML subset, their text and the tree that they stand for.
use ollama_exporter.Base.{
  ltb, ◌==◌, length, All, Bytes, ℕ, zero, suc, ◌+◌, ◌<◌, ◌≡◌, ◌≢◌, Bool, true, false, not, ◌&&◌,
  List, [], ◌∷◌, ◌++◌,
}
use ollama_exporter.Go.Strings.{contains}
use ollama_exporter.Config.Yaml.Tree.{
  Node, undetermined, scalar, map_val, list_val, Entries, no_entries, entry, Items, no_items, item,
}
use ollama_exporter.Config.Yaml.Parse.{max_token}

-- A block of keys: each has a value, a block or a list. An item of a list is a value, or an object
-- with a first key and a block of others.
mutual
  pub data Block : Type 0 where
    end_block : Block
    value_of : Bytes → Bytes → Block → Block
    block_of : Bytes → Block → Block → Block
    list_of : Bytes → Seq → Block → Block

  pub data Seq : Type 0 where
    end_seq : Seq
    plain : Bytes → Seq → Seq
    object : Bytes → Bytes → Block → Seq → Seq

abbrev pub spaces : ℕ → Bytes → Bytes
spaces zero t = t
spaces (suc i) t = 32 ∷ spaces i t

abbrev pub quoted : Bytes → Bytes
quoted v = b'"' ∷ v ++ b'"' ∷ []

-- The four shapes of a line.
abbrev pub value_body : Bytes → Bytes → Bytes
value_body k v = k ++ b':' ∷ 32 ∷ quoted v

abbrev pub key_body : Bytes → Bytes
key_body k = k ++ b':' ∷ []

abbrev pub dash : Bytes → Bytes
dash t = b'-' ∷ 32 ∷ t

-- The lines of a document at an indent, in front of others.
unfoldable mutual
  pub block_lines : ℕ → Block → List Bytes → List Bytes
  block_lines i end_block rest = rest
  block_lines i (value_of k v b) rest = spaces i (value_body k v) ∷ block_lines i b rest
  block_lines i (block_of k sub b) rest =
      spaces i (key_body k) ∷ block_lines (2 + i) sub (block_lines i b rest)
  block_lines i (list_of k xs b) rest =
      spaces i (key_body k) ∷ seq_lines (2 + i) xs (block_lines i b rest)

  pub seq_lines : ℕ → Seq → List Bytes → List Bytes
  seq_lines i end_seq rest = rest
  seq_lines i (plain v xs) rest = spaces i (dash (quoted v)) ∷ seq_lines i xs rest
  seq_lines i (object k v b xs) rest =
      spaces i (dash (value_body k v)) ∷ block_lines (2 + i) b (seq_lines i xs rest)

-- The text of lines, each ended by a line feed.
unfoldable pub unlines : List Bytes → Bytes
unlines [] = []
unlines (l ∷ ls) = l ++ 10 ∷ unlines ls

-- The tree. A key with nothing below it has a node that is neither a map nor a list.
abbrev pub map_or_none : Entries → Node
map_or_none no_entries = undetermined
map_or_none (entry k v es) = map_val (entry k v es)

abbrev pub list_or_none : Items → Node
list_or_none no_items = undetermined
list_or_none (item v xs) = list_val (item v xs)

unfoldable mutual
  pub entries_of : Block → Entries
  entries_of end_block = no_entries
  entries_of (value_of k v b) = entry k (scalar v) (entries_of b)
  entries_of (block_of k sub b) = entry k (map_or_none (entries_of sub)) (entries_of b)
  entries_of (list_of k xs b) = entry k (list_or_none (items_of xs)) (entries_of b)

  pub items_of : Seq → Items
  items_of end_seq = no_items
  items_of (plain v xs) = item (scalar v) (items_of xs)
  items_of (object k v b xs) = item (map_val (entry k (scalar v) (entries_of b))) (items_of xs)

-- A key is of printable bytes but `:` and `#`, and does not start with a dash.
abbrev pub key_byte : ℕ → Bool
key_byte c = ltb 32 c && ltb c 127 && not (c == b':') && not (c == b'#')

abbrev pub IsKey : Bytes → Type 0
IsKey [] = ⊥
IsKey (c ∷ cs) = (c ≢ b'-') × All (λ b. key_byte b ≡ true) (c ∷ cs)

abbrev pub starts_hash : Bytes → Bool
starts_hash [] = false
starts_hash (c ∷ cs) = c == b'#'

-- No comment starts in a text.
unfoldable pub no_mark : Bytes → Bool
no_mark [] = true
no_mark (c ∷ cs) = not (c == 32 && starts_hash cs) && no_mark cs

-- A value is on one line and has no ` #`; as an item of a list it has no colon either.
abbrev pub IsValue : Bytes → Type 0
IsValue v = (contains 10 v ≡ false) × (no_mark v ≡ true)

abbrev pub IsItem : Bytes → Type 0
IsItem v = IsValue v × (contains b':' v ≡ false)

abbrev pub Fits : Bytes → Type 0
Fits l = length l < max_token

unfoldable mutual
  pub IsBlock : ℕ → Block → Type 0
  IsBlock i end_block = Unit
  IsBlock i (value_of k v b) = IsKey k × IsValue v × Fits (spaces i (value_body k v)) × IsBlock i b
  IsBlock i (block_of k sub b) =
      IsKey k × Fits (spaces i (key_body k)) × IsBlock (2 + i) sub × IsBlock i b
  IsBlock i (list_of k xs b) =
      IsKey k × Fits (spaces i (key_body k)) × IsSeq (2 + i) xs × IsBlock i b

  pub IsSeq : ℕ → Seq → Type 0
  IsSeq i end_seq = Unit
  IsSeq i (plain v xs) = IsItem v × Fits (spaces i (dash (quoted v))) × IsSeq i xs
  IsSeq i (object k v b xs) =
      IsKey k × IsValue v × Fits (spaces i (dash (value_body k v))) × IsBlock (2 + i) b × IsSeq i xs
