-- ===== src/Config/Apply.antt =====
-- internal/config/config.go: applyTree and its helpers, which write what a parsed tree says over a
-- configuration. A switch over keys is a chain of tests; a key that it does not name is left alone.
use ollama_exporter.Base.{
  if◌then◌else◌, ℤ, Bytes, codes, equal, ℕ, suc, Option, none, some, List, [], ◌∷◌, ◌++◌,
}
use ollama_exporter.Base.Results.{ok, err, ◌>>=◌}
use ollama_exporter.Go.Strconv.{atoi, parse_bool}
use ollama_exporter.Go.Duration
use ollama_exporter.Go.Dict.{insert}
use ollama_exporter.Config.Yaml.Tree.{
  Node, map_val, list_val, Entries, no_entries, entry, Items, no_items, item, as_string,
}
use ollama_exporter.Config.Model.{
  Config, MetricsEndpointConfig, GpuConfig, ProxyConfig, RetryConfig, CircuitBreakerConfig,
  TlsConfig, BasicAuthConfig, RemoteWriteConfig, empty_remote_write, bad_value,
  plaintext_credentials, not_a_map, Checked,
}

-- `for _, e := range n.mapVal`, up to the first error.
unfoldable pub each : {S : Type 0} → (Bytes → Node → S → Checked S) → Entries → S → Checked S
each f no_entries s = ok s
each f (entry k v es) s = f k v s >>= each f es

-- A node that is no map changes nothing.
unfoldable pub over_map : {S : Type 0} → (Bytes → Node → S → Checked S) → Node → S → Checked S
unfolding each
over_map f (map_val es) s = each f es s
over_map f _ s = ok s

-- The value, or the error that names the key.
unfoldable pub need {ℓ} : {A : Type ℓ} → Bytes → Option A → Checked A
need k none = err (bad_value k)
need k (some a) = ok a

unfoldable pub strings_of : Items → List Bytes
unfolding as_string
strings_of no_items = []
strings_of (item n ns) = as_string n ∷ strings_of ns

unfoldable pub metrics_endpoint_key :
    Bytes → Node → MetricsEndpointConfig → Checked MetricsEndpointConfig
unfolding as_string
metrics_endpoint_key k v m =
    if equal k (codes "enabled")
    then (need k (parse_bool (as_string v)) >>= λ b. ok (record m { enabled = b }))
    else if equal k (codes "listen_address")
    then ok (record m { listen_address = as_string v })
    else ok m

unfoldable pub exclude_paths : Node → ProxyConfig → ProxyConfig
unfolding strings_of
exclude_paths (list_val xs) p = record p { exclude_paths = strings_of xs }
exclude_paths _ p = p

unfoldable pub proxy_key : Bytes → Node → ProxyConfig → Checked ProxyConfig
unfolding as_string exclude_paths
proxy_key k v p =
    if equal k (codes "enabled")
    then (need k (parse_bool (as_string v)) >>= λ b. ok (record p { enabled = b }))
    else if equal k (codes "listen_addr")
    then ok (if equal (as_string v) [] then p else record p { listen_addr = as_string v })
    else if equal k (codes "exclude_paths")
    then ok (exclude_paths v p)
    else ok p

unfoldable pub tls_key : Bytes → Node → TlsConfig → Checked TlsConfig
unfolding as_string
tls_key k v t =
    if equal k (codes "insecure_skip_verify")
    then (need k (parse_bool (as_string v)) >>= λ b. ok (record t { insecure_skip_verify = b }))
    else if equal k (codes "ca_file")
    then ok (record t { ca_file = as_string v })
    else ok t

unfoldable pub basic_auth_key : Bytes → Node → BasicAuthConfig → Checked BasicAuthConfig
unfolding as_string
basic_auth_key k v b =
    if equal k (codes "username")
    then ok (record b { username = as_string v })
    else if equal k (codes "password")
    then err (plaintext_credentials k)
    else if equal k (codes "password_file")
    then ok (record b { password_file = as_string v })
    else ok b

unfoldable pub apply_basic_auth : Node → Checked (Option BasicAuthConfig)
unfolding basic_auth_key each
apply_basic_auth (map_val es) =
    each basic_auth_key es (record { username = []; password_file = [] }) >>= λ b. ok (some b)
apply_basic_auth _ = ok none

unfoldable pub queue_key : Bytes → Node → ℤ → Checked ℤ
unfolding as_string
queue_key k v capacity =
    if equal k (codes "capacity") then need k (atoi (as_string v)) else ok capacity

-- `ep.Headers[h.key] = h.value.asString()` for each entry.
unfoldable pub put_all : Entries → List (Bytes × Bytes) → List (Bytes × Bytes)
unfolding as_string
put_all no_entries m = m
put_all (entry k v es) m = put_all es (insert k (as_string v) m)

unfoldable pub string_map : Node → List (Bytes × Bytes) → List (Bytes × Bytes)
unfolding put_all
string_map (map_val es) m = put_all es m
string_map _ m = m

-- `scaled` is the float64 step of a fraction in a duration.
module _ (scaled : ℕ → ℕ → ℕ → ℕ) where
  unfoldable pub parse_duration : Bytes → Option ℤ
  parse_duration [] = none
  parse_duration (c ∷ cs) = Duration.parse_duration scaled (c ∷ cs)

  unfoldable pub duration : Bytes → Node → Checked ℤ
  unfolding as_string parse_duration
  duration k v = need k (parse_duration (as_string v))

  unfoldable pub gpu_key : Bytes → Node → GpuConfig → Checked GpuConfig
  unfolding as_string duration
  gpu_key k v g =
      if equal k (codes "enabled")
      then (need k (parse_bool (as_string v)) >>= λ b. ok (record g { enabled = b }))
      else if equal k (codes "poll_interval")
      then (if equal (as_string v) []
          then ok g
          else (duration k v >>= λ d. ok (record g { poll_interval = d })))
      else if equal k (codes "sysfs_base")
      then ok (if equal (as_string v) [] then g else record g { sysfs_base = as_string v })
      else ok g

  unfoldable pub retry_key : Bytes → Node → RetryConfig → Checked RetryConfig
  unfolding as_string duration
  retry_key k v r =
      if equal k (codes "max_attempts")
      then (need k (atoi (as_string v)) >>= λ n. ok (record r { max_attempts = n }))
      else if equal k (codes "max_elapsed")
      then (duration k v >>= λ d. ok (record r { max_elapsed = d }))
      else if equal k (codes "initial_backoff")
      then (duration k v >>= λ d. ok (record r { initial_backoff = d }))
      else if equal k (codes "max_backoff")
      then (duration k v >>= λ d. ok (record r { max_backoff = d }))
      else ok r

  unfoldable pub breaker_key : Bytes → Node → CircuitBreakerConfig → Checked CircuitBreakerConfig
  unfolding as_string duration
  breaker_key k v b =
      if equal k (codes "failure_threshold")
      then (need k (atoi (as_string v)) >>= λ n. ok (record b { failure_threshold = n }))
      else if equal k (codes "window")
      then (duration k v >>= λ d. ok (record b { window = d }))
      else if equal k (codes "cooldown")
      then (duration k v >>= λ d. ok (record b { cooldown = d }))
      else ok b

  -- The cases of an entry of remote_write that hold a value of their own.
  unfoldable pub remote_write_value : Bytes → Node → RemoteWriteConfig → Checked RemoteWriteConfig
  unfolding as_string duration
  remote_write_value k v ep =
      if equal k (codes "url")
      then ok (record ep { url = as_string v })
      else if equal k (codes "name")
      then ok (record ep { name = as_string v })
      else if equal k (codes "flush_interval")
      then (duration k v >>= λ d. ok (record ep { flush_interval = d }))
      else if equal k (codes "timeout")
      then (duration k v >>= λ d. ok (record ep { timeout = d }))
      else if equal k (codes "insecure_http")
      then (need k (parse_bool (as_string v)) >>= λ b. ok (record ep { insecure_http = b }))
      else if equal k (codes "bearer_token")
      then err (plaintext_credentials k)
      else if equal k (codes "bearer_token_file")
      then ok (record ep { bearer_token_file = as_string v })
      else ok ep

  -- The cases that hold a block, and the rest.
  unfoldable pub remote_write_key : Bytes → Node → RemoteWriteConfig → Checked RemoteWriteConfig
  unfolding remote_write_value apply_basic_auth string_map over_map
  remote_write_key k v ep =
      if equal k (codes "queue")
      then (over_map queue_key v ep.capacity >>= λ c. ok (record ep { capacity = c }))
      else if equal k (codes "retry")
      then (over_map retry_key v ep.retry >>= λ r. ok (record ep { retry = r }))
      else if equal k (codes "circuit_breaker")
      then (over_map breaker_key v ep.circuit_breaker >>= λ b.
          ok (record ep { circuit_breaker = b }))
      else if equal k (codes "tls")
      then (over_map tls_key v ep.tls >>= λ t. ok (record ep { tls = t }))
      else if equal k (codes "basic_auth")
      then (apply_basic_auth v >>= λ a. ok (record ep { basic_auth = a }))
      else if equal k (codes "headers")
      then ok (record ep { headers = string_map v ep.headers })
      else if equal k (codes "external_labels")
      then ok (record ep { external_labels = string_map v ep.external_labels })
      else remote_write_value k v ep

  unfoldable pub parse_remote_write_entry : ℕ → Node → Checked RemoteWriteConfig
  unfolding remote_write_key each
  parse_remote_write_entry idx (map_val es) = each remote_write_key es empty_remote_write
  parse_remote_write_entry idx _ = err (not_a_map idx)

  unfoldable pub remote_write_items :
      ℕ → Items → List RemoteWriteConfig → Checked (List RemoteWriteConfig)
  unfolding parse_remote_write_entry
  remote_write_items i no_items out = ok out
  remote_write_items i (item n ns) out =
      parse_remote_write_entry i n >>= λ ep. remote_write_items (suc i) ns (out ++ ep ∷ [])

  unfoldable pub apply_remote_write :
      Node → List RemoteWriteConfig → Checked (List RemoteWriteConfig)
  unfolding remote_write_items
  apply_remote_write (list_val xs) out = remote_write_items 0 xs out
  apply_remote_write _ out = ok out

  unfoldable pub config_key : Bytes → Node → Config → Checked Config
  unfolding as_string duration metrics_endpoint_key proxy_key gpu_key apply_remote_write over_map
  config_key k v c =
      if equal k (codes "ollama_url")
      then ok (record c { ollama_url = as_string v })
      else if equal k (codes "listen_addr")
      then ok (record c { listen_addr = as_string v })
      else if equal k (codes "poll_interval")
      then (duration k v >>= λ d. ok (record c { poll_interval = d }))
      else if equal k (codes "log_level")
      then ok (record c { log_level = as_string v })
      else if equal k (codes "metrics_endpoint")
      then (over_map metrics_endpoint_key v c.metrics_endpoint >>= λ m.
          ok (record c { metrics_endpoint = m }))
      else if equal k (codes "proxy")
      then (over_map proxy_key v c.proxy >>= λ p. ok (record c { proxy = p }))
      else if equal k (codes "gpu")
      then (over_map gpu_key v c.gpu >>= λ g. ok (record c { gpu = g }))
      else if equal k (codes "remote_write")
      then (apply_remote_write v c.remote_write >>= λ r. ok (record c { remote_write = r }))
      else ok c

  unfoldable pub apply_tree : Config → Node → Checked Config
  unfolding config_key over_map
  apply_tree cfg root = over_map config_key root cfg
