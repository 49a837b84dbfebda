-- ===== src/Exporter.antt =====
-- cmd/exporter/main.go: from a loaded configuration to the pusher of remote write. Flags, listeners
-- and signals are input and output; the warnings of buildPusher are left out.
pub mod Runs
use ollama_exporter.Base.{pos, Bytes, ℕ, ◌*◌, Bool, true, Option, none, some, List, [], ◌∷◌}
use ollama_exporter.Base.Results.{Result, ok, ◌>>=◌, ◌>>◌}
use ollama_exporter.Config.Model.{RemoteWriteConfig, BasicAuthConfig}
use ollama_exporter.RemoteWrite.Build.{EndpointBuildSpec, BuildError, BuildOptions, Pusher, build}

abbrev pub second : ℕ
second = 1000000000

-- Without basic_auth both are empty.
abbrev pub user_of : Option BasicAuthConfig → Bytes
user_of none = []
user_of (some a) = a.username

abbrev pub pass_file_of : Option BasicAuthConfig → Bytes
pass_file_of none = []
pass_file_of (some a) = a.password_file

unfoldable pub to_build_spec : RemoteWriteConfig → EndpointBuildSpec
to_build_spec ep = record {
  name = ep.name;
  url = ep.url;
  timeout = ep.timeout;
  retry = record {
    max_attempts = ep.retry.max_attempts;
    max_elapsed = ep.retry.max_elapsed;
    initial_backoff = ep.retry.initial_backoff;
    max_backoff = ep.retry.max_backoff;
  };
  breaker = record {
    failure_threshold = ep.circuit_breaker.failure_threshold;
    window = ep.circuit_breaker.window;
    cooldown = ep.circuit_breaker.cooldown;
  };
  capacity = ep.capacity;
  tls_ca_file = ep.tls.ca_file;
  tls_insecure_verify = ep.tls.insecure_skip_verify;
  insecure_http = ep.insecure_http;
  basic_auth_user = user_of ep.basic_auth;
  basic_auth_pass_file = pass_file_of ep.basic_auth;
  bearer_token_file = ep.bearer_token_file;
  headers = ep.headers;
  external_labels = ep.external_labels;
}

-- The options for the first endpoint.
unfoldable pub options_of : RemoteWriteConfig → BuildOptions
options_of ep = record {
  has_gatherer = true;
  endpoints = to_build_spec ep ∷ [];
  flush_interval = ep.flush_interval;
  drain_timeout = pos (5 * second);
}

module _ (read_file : Bytes → Option Bytes) (append_certs : Bytes → Bool) where
  unfoldable pub build_pusher :
      {A : Type 0} → List RemoteWriteConfig → Result BuildError (Option (Pusher A))
  build_pusher [] = ok none
  build_pusher (ep ∷ eps) = build read_file append_certs (options_of ep) >>= λ p. ok (some p)
