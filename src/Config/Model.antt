-- ===== src/Config/Model.antt =====
-- internal/config/config.go: the configuration, its defaults and its errors. Durations are integers
-- of nanoseconds, and numbers are Go's `int`.
use ollama_exporter.Base.{
  ℤ, pos, Bytes, codes, ℕ, ◌*◌, Bool, true, false, Option, none, List, [], ◌∷◌,
}
use ollama_exporter.Base.Results.{Result}

pub record MetricsEndpointConfig : Type 0 where
  pub enabled : Bool
  pub listen_address : Bytes

pub record GpuConfig : Type 0 where
  pub enabled : Bool
  pub poll_interval : ℤ
  pub sysfs_base : Bytes

pub record ProxyConfig : Type 0 where
  pub enabled : Bool
  pub listen_addr : Bytes
  pub exclude_paths : List Bytes

pub record RetryConfig : Type 0 where
  pub max_attempts : ℤ
  pub max_elapsed : ℤ
  pub initial_backoff : ℤ
  pub max_backoff : ℤ

pub record CircuitBreakerConfig : Type 0 where
  pub failure_threshold : ℤ
  pub window : ℤ
  pub cooldown : ℤ

pub record TlsConfig : Type 0 where
  pub insecure_skip_verify : Bool
  pub ca_file : Bytes

pub record BasicAuthConfig : Type 0 where
  pub username : Bytes
  pub password_file : Bytes

-- The record of the queue is its one field.
pub record RemoteWriteConfig : Type 0 where
  pub url : Bytes
  pub name : Bytes
  pub flush_interval : ℤ
  pub timeout : ℤ
  pub insecure_http : Bool
  pub capacity : ℤ
  pub retry : RetryConfig
  pub circuit_breaker : CircuitBreakerConfig
  pub tls : TlsConfig
  pub basic_auth : Option BasicAuthConfig
  pub bearer_token_file : Bytes
  pub headers : List (Bytes × Bytes)
  pub external_labels : List (Bytes × Bytes)

pub record Config : Type 0 where
  pub ollama_url : Bytes
  pub listen_addr : Bytes
  pub poll_interval : ℤ
  pub metrics_endpoint : MetricsEndpointConfig
  pub proxy : ProxyConfig
  pub gpu : GpuConfig
  pub remote_write : List RemoteWriteConfig
  pub log_level : Bytes

abbrev pub second : ℕ
second = 1000000000

unfoldable pub defaults : Config
defaults = record {
  ollama_url = codes "http://localhost:11434";
  listen_addr = codes ":9400";
  poll_interval = pos (15 * second);
  metrics_endpoint = record { enabled = true; listen_address = [] };
  proxy = record {
    enabled = true;
    listen_addr = codes ":9401";
    exclude_paths =
        codes "/"
        ∷ codes "/api/ps"
        ∷ codes "/api/tags"
        ∷ codes "/api/show"
        ∷ codes "/api/version"
        ∷ [];
  };
  gpu = record { enabled = true; poll_interval = pos 0; sysfs_base = codes "/sys/class/drm" };
  remote_write = [];
  log_level = codes "info";
}

-- The zero value that an entry of remote_write starts from.
unfoldable pub empty_remote_write : RemoteWriteConfig
empty_remote_write = record {
  url = [];
  name = [];
  flush_interval = pos 0;
  timeout = pos 0;
  insecure_http = false;
  capacity = pos 0;
  retry = record {
    max_attempts = pos 0;
    max_elapsed = pos 0;
    initial_backoff = pos 0;
    max_backoff = pos 0;
  };
  circuit_breaker = record { failure_threshold = pos 0; window = pos 0; cooldown = pos 0 };
  tls = record { insecure_skip_verify = false; ca_file = [] };
  basic_auth = none;
  bearer_token_file = [];
  headers = [];
  external_labels = [];
}

-- Errors, without their texts: a value that cannot be read, by its key; the refusals of an entry of
-- remote_write; those of the whole.
pub data ConfigError : Type 0 where
  unreadable_config unparsed_config : ConfigError
  bad_value : Bytes → ConfigError
  plaintext_credentials : Bytes → ConfigError
  not_a_map : ℕ → ConfigError
  url_required url_invalid plaintext_http bad_scheme auth_conflict : ℕ → ConfigError
  reserved_header : ℕ → Bytes → ConfigError
  not_positive short_flush : ℕ → ConfigError
  empty_ollama_url short_poll_interval no_output : ConfigError

abbrev pub Checked {ℓ} : Type ℓ → Type ℓ
Checked A = Result ConfigError A
