-- ===== src/Config/Secrets.antt =====
-- Plaintext credentials in a configuration file are refused, wherever they stand in an endpoint.
use ollama_exporter.Base.{
  Bool-cases, Bytes, codes, equal, equal_iff, ℕ, suc, ◌≡◌, refl, ap, inl, inr, Bool, true, false,
  ◌&&◌, ◌||◌, List, [], ◌∷◌, ◌++◌, arith,
}
use ollama_exporter.Base.Results.{ok, err, ◌>>=◌, Result-cases}
use ollama_exporter.Config.Yaml.Tree.{
  Node, undetermined, scalar, map_val, list_val, Entries, no_entries, entry, Items, no_items, item,
}
use ollama_exporter.Config.Yaml.Parse.{parse_yaml_tree}
use ollama_exporter.Config.Load.{contents, load, apply_file}
use ollama_exporter.Config.Model.{
  Config, RemoteWriteConfig, ConfigError, BasicAuthConfig, Checked, defaults,
}
use ollama_exporter.Config.Apply.{
  each, basic_auth_key, apply_basic_auth, remote_write_key, parse_remote_write_entry,
  remote_write_items, config_key, apply_tree,
}

-- Some entry has a key and a value that a test holds of.
unfoldable pub has_entry : Bytes → (Node → Bool) → Entries → Bool
has_entry k p no_entries = false
has_entry k p (entry j v es) = (equal j k && p v) || has_entry k p es

unfoldable pub map_with : Bytes → (Node → Bool) → Node → Bool
unfolding has_entry
map_with k p (map_val es) = has_entry k p es
map_with k p _ = false

unfoldable pub has_item : (Node → Bool) → Items → Bool
has_item p no_items = false
has_item p (item n ns) = p n || has_item p ns

unfoldable pub list_with : (Node → Bool) → Node → Bool
unfolding has_item
list_with p (list_val xs) = has_item p xs
list_with p _ = false

abbrev pub anything : Node → Bool
anything v = true

-- A bearer token or a password, in plaintext.
unfoldable pub holds_secret : Node → Bool
unfolding map_with
holds_secret n =
    map_with (codes "bearer_token") anything n
    || map_with (codes "basic_auth") (map_with (codes "password") anything) n

-- A list of endpoints under the key remote_write, one of which holds a secret.
unfoldable pub exposes : Node → Bool
unfolding map_with list_with
exposes = map_with (codes "remote_write") (list_with holds_secret)

abbrev pub Fails {ℓ} : {A : Type ℓ} → Checked A → Type ℓ
Fails r = (e : ConfigError) × (r ≡ err e)

each-Fails :
    {S : Type 0} (f : Bytes → Node → S → Checked S) (k : Bytes) (p : Node → Bool)
    → ((v : Node) (s : S) → p v ≡ true → Fails (f k v s))
    → (es : Entries) (s : S) → has_entry k p es ≡ true
    → Fails (each f es s)
unfolding each has_entry
each-Fails {S} f k p bad no_entries s h = cc
each-Fails {S} f k p bad (entry j v es) s h = elim (Result-cases (f j v s)) [
  | inr (e, r) ↦ (e, rw r)
  | inl (t, r) ↦ rw r (each-Fails f k p bad es t (later r))
]
  where
    later : {t : S} → f j v s ≡ ok t → has_entry k p es ≡ true
    later {t} r = elim (Bool-cases (equal j k)) [
      | inr e ↦ ground arith
      | inl e ↦ elim (Bool-cases (p v)) [
        | inr q ↦ ground arith
        | inl q ↦ cc (r, ap (λ i. f i v s) ((equal_iff j k).0 e), (bad v s q).1)
      ]
    ]

>>=-Fails {ℓ} : {A B : Type ℓ} (r : Checked A) (f : A → Checked B) → Fails r → Fails (r >>= f)
>>=-Fails r f (e, h) = (e, rw h)

basic_auth_key-Fails :
    (v : Node) (b : BasicAuthConfig)
    → anything v ≡ true
    → Fails (basic_auth_key (codes "password") v b)
unfolding basic_auth_key equal
basic_auth_key-Fails v b t = (_, refl)

apply_basic_auth-Fails :
    (n : Node) → map_with (codes "password") anything n ≡ true → Fails (apply_basic_auth n)
unfolding apply_basic_auth map_with
apply_basic_auth-Fails (map_val es) h =
    >>=-Fails _ _
      (each-Fails basic_auth_key (codes "password") anything basic_auth_key-Fails es _ h)
apply_basic_auth-Fails undetermined h = cc
apply_basic_auth-Fails (scalar s) h = cc
apply_basic_auth-Fails (list_val xs) h = cc

module _ (scaled : ℕ → ℕ → ℕ → ℕ) where
  bearer_token-Fails :
      (v : Node) (ep : RemoteWriteConfig)
      → anything v ≡ true
      → Fails (remote_write_key scaled (codes "bearer_token") v ep)
  unfolding remote_write_key equal
  bearer_token-Fails v ep t = (_, refl)

  basic_auth-Fails :
      (v : Node) (ep : RemoteWriteConfig)
      → map_with (codes "password") anything v ≡ true
      → Fails (remote_write_key scaled (codes "basic_auth") v ep)
  unfolding remote_write_key equal
  basic_auth-Fails v ep h = >>=-Fails _ _ (apply_basic_auth-Fails v h)

  -- An endpoint with a secret is refused, whatever else it says.
  parse_remote_write_entry-Fails :
      (idx : ℕ) (n : Node) → holds_secret n ≡ true → Fails (parse_remote_write_entry scaled idx n)
  unfolding parse_remote_write_entry holds_secret map_with
  parse_remote_write_entry-Fails idx (map_val es) h =
      elim (Bool-cases (has_entry (codes "bearer_token") anything es)) [
        | inl t ↦
            each-Fails (remote_write_key scaled) (codes "bearer_token") anything bearer_token-Fails
              es _ t
        | inr t ↦
            each-Fails (remote_write_key scaled) (codes "basic_auth")
              (map_with (codes "password") anything) basic_auth-Fails es _ (rw t at h)
      ]
  parse_remote_write_entry-Fails idx undetermined h = cc
  parse_remote_write_entry-Fails idx (scalar s) h = cc
  parse_remote_write_entry-Fails idx (list_val xs) h = cc

  remote_write_items-Fails :
      (i : ℕ) (xs : Items) (out : List RemoteWriteConfig)
      → has_item holds_secret xs ≡ true
      → Fails (remote_write_items scaled i xs out)
  unfolding remote_write_items has_item
  remote_write_items-Fails i no_items out h = cc
  remote_write_items-Fails i (item n ns) out h =
      elim (Result-cases (parse_remote_write_entry scaled i n)) [
        | inr (e, r) ↦ (e, rw r)
        | inl (ep, r) ↦ rw r (remote_write_items-Fails (suc i) ns (out ++ ep ∷ []) (later r))
      ]
    where
      later :
          {ep : RemoteWriteConfig}
          → parse_remote_write_entry scaled i n ≡ ok ep
          → has_item holds_secret ns ≡ true
      later r = elim (Bool-cases (holds_secret n)) [
        | inl q ↦ cc (r, (parse_remote_write_entry-Fails i n q).1)
        | inr q ↦ ground arith
      ]

  remote_write-Fails :
      (v : Node) (c : Config)
      → list_with holds_secret v ≡ true
      → Fails (config_key scaled (codes "remote_write") v c)
  unfolding config_key equal list_with
  remote_write-Fails (list_val xs) c h =
      >>=-Fails _ _ (remote_write_items-Fails 0 xs c.remote_write h)
  remote_write-Fails undetermined c h = cc
  remote_write-Fails (scalar s) c h = cc
  remote_write-Fails (map_val es) c h = cc

  pub apply_tree-Fails :
      (tree : Node) (c : Config) → exposes tree ≡ true → Fails (apply_tree scaled c tree)
  unfolding apply_tree exposes map_with
  apply_tree-Fails (map_val es) c h =
      each-Fails (config_key scaled) (codes "remote_write") (list_with holds_secret)
        remote_write-Fails es c h
  apply_tree-Fails undetermined c h = cc
  apply_tree-Fails (scalar s) c h = cc
  apply_tree-Fails (list_val xs) c h = cc

-- A file whose tree has a plaintext bearer token in an endpoint, or a plaintext password in its
-- basic_auth, is never loaded, whatever the file, the environment and the other endpoints say.
pub load_refuses_secrets :
    (scaled : ℕ → ℕ → ℕ → ℕ) (accepts : Bytes → Bool) (text url addr : Bytes) {tree : Node}
    → parse_yaml_tree text ≡ ok tree
    → exposes tree ≡ true
    → Fails (load scaled accepts (contents text) url addr)
unfolding load apply_file
load_refuses_secrets scaled accepts text url addr {tree} p h =
    rw p (>>=-Fails _ _ (apply_tree-Fails scaled tree defaults h))
