-- ===== src/Config/Loaded.antt =====
-- What Load returns, and what a client of it may rely on.
use ollama_exporter.Base.{
  if◌then◌else◌, All, Bytes, codes, equal, equal_iff, ℕ, ◌≡◌, refl, subst, inl, inr, Bool, false,
  List, [], ◌∷◌, arith, ◌↔◌,
}
use ollama_exporter.Base.Results.{ok, err, ◌>>◌, Result-cases}
use ollama_exporter.Go.Http.{Header, canonical_header_key, set_header}
use ollama_exporter.RemoteWrite.Wire.{reserved_headers, is_reserved, apply_headers}
use ollama_exporter.Config.Yaml.Tree.{Node}
use ollama_exporter.Config.Yaml.Parse.{parse_yaml_tree}
use ollama_exporter.Config.Apply.{apply_tree}
use ollama_exporter.Config.Model.{defaults, Config, RemoteWriteConfig, Checked}
use ollama_exporter.Config.Load.{
  contents, not_exist, unreadable, apply_parsed, ReadFile, override, override_env, mirror_listen,
  apply_file, load, validate,
}
use ollama_exporter.Config.Valid.{IsValid, IsValidEndpoint, IsFree, validate_iff}

-- A text that is set, or else another.
abbrev pub or_else : Bytes → Bytes → Bytes
or_else [] t = t
or_else (c ∷ cs) t = c ∷ cs

override_lem : (a b : Bytes) → override a b ≡ or_else a b
unfolding override
override_lem [] b = refl
override_lem (c ∷ cs) b = refl

or_else_set : (a b : Bytes) → (if equal a [] then b else a) ≡ or_else a b
unfolding equal
or_else_set [] b = refl
or_else_set (c ∷ cs) b = refl

-- What becomes of the configuration of the file: a variable that is set replaces Ollama's URL, and
-- one address is listened on, that of metrics_endpoint, or else that of the environment, or else
-- that of the old key. Everything else is as the file has it.
pub record ComesFrom (url addr : Bytes) (cfg c : Config) : Type 0 where
  pub ollama_url : c.ollama_url ≡ or_else url cfg.ollama_url
  pub listen_addr :
      c.listen_addr ≡ or_else cfg.metrics_endpoint.listen_address (or_else addr cfg.listen_addr)
  pub one_address : c.metrics_endpoint.listen_address ≡ c.listen_addr
  pub enabled : c.metrics_endpoint.enabled ≡ cfg.metrics_endpoint.enabled
  pub poll_interval : c.poll_interval ≡ cfg.poll_interval
  pub proxy : c.proxy ≡ cfg.proxy
  pub gpu : c.gpu ≡ cfg.gpu
  pub remote_write : c.remote_write ≡ cfg.remote_write
  pub log_level : c.log_level ≡ cfg.log_level

mirror_listen-ComesFrom :
    (url addr : Bytes) (cfg : Config)
    → ComesFrom url addr cfg (mirror_listen (override_env url addr cfg))
unfolding mirror_listen override_env equal
mirror_listen-ComesFrom url addr cfg = ground (
  arith,
  equal_iff cfg.metrics_endpoint.listen_address [],
  override_lem url cfg.ollama_url,
  override_lem addr cfg.listen_addr,
  or_else_set cfg.metrics_endpoint.listen_address (or_else addr cfg.listen_addr),
)

accepted :
    {A : Type 0} (r : Checked (Unit {0})) (a : A) {b : A}
    → (r >> ok a) ≡ ok b
    → (r ≡ ok tt) × (a ≡ b)
accepted (ok tt) a h = (refl, cc)
accepted (err e) a h = cc

ComesFrom-unique :
    (url addr : Bytes) (cfg c c' : Config)
    → ComesFrom url addr cfg c
    → ComesFrom url addr cfg c'
    → c ≡ c'
ComesFrom-unique url addr cfg c c' p q = cc

-- The settings of a file: those of its tree over the defaults, or the defaults if there is no file.
pub data Reads (scaled : ℕ → ℕ → ℕ → ℕ) : ReadFile → Config → Type 0 where
  from_text :
      {text : Bytes} {tree : Node} {cfg : Config}
      → parse_yaml_tree text ≡ ok tree
      → apply_tree scaled defaults tree ≡ ok cfg
      → Reads scaled (contents text) cfg
  no_file : Reads scaled not_exist defaults

module _ (scaled : ℕ → ℕ → ℕ → ℕ) (accepts : Bytes → Bool) where
  apply_file-Reads :
      (file : ReadFile) (cfg : Config)
      → apply_file scaled accepts file ≡ ok cfg
      → Reads scaled file cfg
  unfolding apply_file apply_parsed
  apply_file-Reads (contents text) cfg h = elim (Result-cases (parse_yaml_tree text)) [
    | inl (tree, r) ↦ from_text r (rw r at h)
    | inr (e, r) ↦ cc (rw r at h)
  ]
  apply_file-Reads not_exist cfg h = subst (Reads scaled not_exist) (cc h) no_file
  apply_file-Reads unreadable cfg h = cc

  Reads-apply_file :
      {file : ReadFile} {cfg : Config}
      → Reads scaled file cfg
      → apply_file scaled accepts file ≡ ok cfg
  unfolding apply_file apply_parsed
  Reads-apply_file (from_text r h) = rw r h
  Reads-apply_file no_file = refl

  -- Load returns a configuration exactly when it is valid, and is that of the file, or the defaults
  -- if there is no file, in every setting but two: a variable that is set replaces Ollama's URL, and
  -- the listen address is that of metrics_endpoint, or else that of the environment, or else that of
  -- the old key.
  pub load-IsValid :
      (file : ReadFile) (url addr : Bytes) (c : Config)
      → (load scaled accepts file url addr ≡ ok c)
        ↔ (IsValid accepts c × ((cfg : Config) × Reads scaled file cfg × ComesFrom url addr cfg c))
  unfolding load
  load-IsValid file url addr c = (found, loaded)
    where
      found :
          load scaled accepts file url addr ≡ ok c
          → IsValid accepts c × ((cfg : Config) × Reads scaled file cfg × ComesFrom url addr cfg c)
      found h = elim (Result-cases (apply_file scaled accepts file)) [
        | inr (e, r) ↦ cc (rw r at h)
        | inl (cfg, r) ↦
            let c' = mirror_listen (override_env url addr cfg) in
            let (v, e) = accepted (validate accepts c') c' (rw r at h) in
            (
              subst (IsValid accepts) e ((validate_iff accepts c').0 v),
              (
                cfg,
                apply_file-Reads file cfg r,
                subst (ComesFrom url addr cfg) e (mirror_listen-ComesFrom url addr cfg),
              ),
            )
      ]

      loaded :
          (IsValid accepts c × ((cfg : Config) × Reads scaled file cfg × ComesFrom url addr cfg c))
          → load scaled accepts file url addr ≡ ok c
      loaded (v, (cfg, r, f)) =
          let c' = mirror_listen (override_env url addr cfg) in
          let e = ComesFrom-unique url addr cfg c c' f (mirror_listen-ComesFrom url addr cfg) in
          rw (Reads-apply_file r, (validate_iff accepts c').1 (subst (IsValid accepts) e v)) (cc e)

-- The loop of the request over headers that it all takes.
abbrev pub set_headers : List (Bytes × Bytes) → Header → Header
set_headers [] h = h
set_headers ((k, v) ∷ rest) h = set_headers rest (set_header k v h)

-- The names that validation keeps out cover those that a request skips.
not_reserved :
    (h : Bytes × Bytes) → IsFree h → is_reserved reserved_headers (canonical_header_key h.0) ≡ false
unfolding is_reserved
not_reserved (k, v) f = ground (
  arith,
  equal_iff (codes "Content-Encoding") (canonical_header_key k),
  equal_iff (codes "Content-Type") (canonical_header_key k),
  equal_iff (codes "X-Prometheus-Remote-Write-Version") (canonical_header_key k),
)

-- A request drops none of the headers of a valid endpoint: the loop that skips reserved names sets
-- every one.
pub apply_headers-valid :
    (accepts : Bytes → Bool) (ep : RemoteWriteConfig) (h : Header)
    → IsValidEndpoint accepts ep
    → apply_headers ep.headers h ≡ set_headers ep.headers h
unfolding apply_headers
apply_headers-valid accepts ep h v = keeps ep.headers h v.free_headers
  where
    keeps :
        (hs : List (Bytes × Bytes)) (h : Header)
        → All IsFree hs
        → apply_headers hs h ≡ set_headers hs h
    keeps [] h f = refl
    keeps ((k, v) ∷ hs) h f = rw (not_reserved (k, v) f.0) (keeps hs (set_header k v h) f.1)
