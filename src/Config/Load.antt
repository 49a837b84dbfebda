-- ===== src/Config/Load.antt =====
-- internal/config/config.go: Load and validate. `accepts` is whether url.Parse takes a text besides
-- its scheme; the file and the environment are what reading them gives.
use ollama_exporter.Base.{
  ◌==◌, if◌then◌else◌, length, ltb_ℤ, ℤ, pos, Bytes, codes, equal, ℕ, suc, Bool, true, false, not,
  ◌&&◌, ◌||◌, Option, none, some, List, [], ◌∷◌,
}
use ollama_exporter.Base.Results.{Result, ok, err, ◌>>=◌, ◌>>◌}
use ollama_exporter.Go.Url.{url_scheme}
use ollama_exporter.Go.Http.{canonical_header_key}
use ollama_exporter.Config.Yaml.Tree.{Node}
use ollama_exporter.Config.Yaml.Place.{YamlError}
use ollama_exporter.Config.Yaml.Parse.{parse_yaml_tree}
use ollama_exporter.Config.Apply.{apply_tree}
use ollama_exporter.Config.Model.{
  Config, ConfigError, RemoteWriteConfig, defaults, second, Checked, unreadable_config,
  unparsed_config, url_required, url_invalid, plaintext_http, bad_scheme, auth_conflict,
  reserved_header, not_positive, short_flush, empty_ollama_url, short_poll_interval, no_output,
}

-- `return err` if the test holds.
unfoldable pub reject : Bool → ConfigError → Checked (Unit {0})
reject true e = err e
reject false e = ok tt

abbrev pub is_some {ℓ} : {A : Type ℓ} → Option A → Bool
is_some none = false
is_some (some a) = true

abbrev pub negative : ℤ → Bool
negative a = ltb_ℤ a (pos 0)

unfoldable pub check_scheme : ℕ → Bool → Option Bytes → Checked (Unit {0})
check_scheme idx insecure none = err (url_invalid idx)
check_scheme idx insecure (some s) =
    if equal s (codes "https")
    then ok tt
    else if equal s (codes "http")
    then reject (not insecure) (plaintext_http idx)
    else err (bad_scheme idx)

unfoldable pub is_reserved_key : Bytes → Bool
is_reserved_key ck =
    equal ck (codes "Authorization")
    || equal ck (codes "Content-Encoding")
    || equal ck (codes "Content-Type")
    || equal ck (codes "X-Prometheus-Remote-Write-Version")

-- The loop over the map, in the order that it gives.
unfoldable pub check_headers : ℕ → List (Bytes × Bytes) → Checked (Unit {0})
unfolding reject is_reserved_key
check_headers idx [] = ok tt
check_headers idx ((k, v) ∷ hs) =
    reject (is_reserved_key (canonical_header_key k)) (reserved_header idx k) >>= λ _.
    check_headers idx hs

unfoldable pub check_numbers : ℕ → RemoteWriteConfig → Checked (Unit {0})
unfolding reject
check_numbers idx ep = do
  reject (negative ep.flush_interval) (not_positive idx)
  reject (ltb_ℤ (pos 0) ep.flush_interval && ltb_ℤ ep.flush_interval (pos second)) (short_flush idx)
  reject (negative ep.timeout) (not_positive idx)
  reject (negative ep.retry.max_attempts) (not_positive idx)
  reject (negative ep.retry.initial_backoff) (not_positive idx)
  reject (negative ep.retry.max_backoff) (not_positive idx)
  reject (negative ep.retry.max_elapsed) (not_positive idx)
  reject (negative ep.circuit_breaker.window) (not_positive idx)
  reject (negative ep.circuit_breaker.cooldown) (not_positive idx)
  reject (negative ep.capacity) (not_positive idx)

module _ (accepts : Bytes → Bool) where
  unfoldable pub validate_remote_write : ℕ → RemoteWriteConfig → Checked (Unit {0})
  unfolding check_scheme check_headers check_numbers reject
  validate_remote_write idx ep = do
    reject (equal ep.url []) (url_required idx)
    check_scheme idx ep.insecure_http (url_scheme accepts ep.url)
    reject (is_some ep.basic_auth && not (equal ep.bearer_token_file [])) (auth_conflict idx)
    check_headers idx ep.headers
    check_numbers idx ep

  unfoldable pub validate_all : ℕ → List RemoteWriteConfig → Checked (Unit {0})
  validate_all i [] = ok tt
  validate_all i (ep ∷ eps) = validate_remote_write i ep >>= λ _. validate_all (suc i) eps

  unfoldable pub validate : Config → Checked (Unit {0})
  unfolding reject
  validate c = do
    reject (equal c.ollama_url []) empty_ollama_url
    reject (ltb_ℤ c.poll_interval (pos second)) short_poll_interval
    validate_all 0 c.remote_write
    reject (not c.metrics_endpoint.enabled && length c.remote_write == 0) no_output

-- The file, as os.ReadFile gives it.
pub data ReadFile : Type 0 where
  contents : Bytes → ReadFile
  not_exist unreadable : ReadFile

-- A variable that is unset or empty changes nothing.
unfoldable pub override : Bytes → Bytes → Bytes
override [] old = old
override (c ∷ cs) old = c ∷ cs

unfoldable pub override_env : Bytes → Bytes → Config → Config
unfolding override
override_env url addr c = record c {
  ollama_url = override url c.ollama_url;
  listen_addr = override addr c.listen_addr;
}

-- The two listen addresses become one.
unfoldable pub mirror_listen : Config → Config
mirror_listen c =
    if equal c.metrics_endpoint.listen_address []
    then record c {
      metrics_endpoint = record c.metrics_endpoint { listen_address = c.listen_addr };
    }
    else record c { listen_addr = c.metrics_endpoint.listen_address }

module _ (scaled : ℕ → ℕ → ℕ → ℕ) (accepts : Bytes → Bool) where
  unfoldable pub apply_parsed : Result YamlError Node → Checked Config
  apply_parsed (err e) = err unparsed_config
  apply_parsed (ok tree) = apply_tree scaled defaults tree

  unfoldable pub apply_file : ReadFile → Checked Config
  unfolding apply_parsed
  apply_file (contents text) = apply_parsed (parse_yaml_tree text)
  apply_file not_exist = ok defaults
  apply_file unreadable = err unreadable_config

  -- `url` and `addr` are the variables OLLAMA_URL and LISTEN_ADDR.
  unfoldable pub load : ReadFile → Bytes → Bytes → Checked Config
  load file url addr = do
    cfg ← apply_file file
    let c = mirror_listen (override_env url addr cfg)
    validate accepts c
    ok c
