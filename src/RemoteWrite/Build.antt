-- ===== src/RemoteWrite/Build.antt =====
-- internal/remotewrite/build.go: a pusher and its sender from the configuration of an endpoint. Files
-- are read by a parameter; `append_certs` is x509's parser of a file of certificates. Of the HTTP
-- client, what the configuration decides is kept, and of the observers nothing.
pub mod Ready
use ollama_exporter.Base.{
  ◌==◌, if◌then◌else◌, leb_ℤ, ℤ, pos, Bytes, codes, equal, ℕ, ◌*◌, Bool, ◌||◌, Option, none, some,
  List, [], ◌∷◌,
}
use ollama_exporter.Base.Results.{Result, ok, err, ◌>>=◌, ◌>>◌}
use ollama_exporter.Go.Strings.{cut_at, cut_first, trim_right}
use ollama_exporter.RemoteWrite.Queue.{Queue, new_queue}
use ollama_exporter.RemoteWrite.Breaker.{Breaker, BreakerConfig, new_circuit_breaker}
use ollama_exporter.RemoteWrite.Convert.{Label, new_labels}
use ollama_exporter.RemoteWrite.Sender.{EndpointConfig}
use ollama_exporter.RemoteWrite.Sender.Credentials.{Credentials}

-- The records RetryBuildSpec, BreakerBuildSpec and QueueBuildSpec are those of the parts, and a
-- number.
pub record EndpointBuildSpec : Type 0 where
  pub name : Bytes
  pub url : Bytes
  pub timeout : ℤ
  pub retry : EndpointConfig
  pub breaker : BreakerConfig
  pub capacity : ℤ
  pub tls_ca_file : Bytes
  pub tls_insecure_verify : Bool
  pub insecure_http : Bool
  pub basic_auth_user : Bytes
  pub basic_auth_pass_file : Bytes
  pub bearer_token_file : Bytes
  pub headers : List (Bytes × Bytes)
  pub external_labels : List (Bytes × Bytes)

pub record BuildOptions : Type 0 where
  pub has_gatherer : Bool
  pub endpoints : List EndpointBuildSpec
  pub flush_interval : ℤ
  pub drain_timeout : ℤ

pub data BuildError : Type 0 where
  no_endpoints no_gatherer : BuildError
  read_failed no_certs : Bytes → BuildError

pub record Client : Type 0 where
  pub timeout : ℤ
  pub insecure_skip_verify : Bool
  pub root_cas : Option Bytes

pub record Sender (A : Type 0) : Type 0 where
  pub name : Bytes
  pub url : Bytes
  pub cfg : EndpointConfig
  pub credentials : Credentials
  pub external_labels : List Label
  pub queue : Queue A
  pub client : Client
  pub breaker : Breaker

pub record Pusher (A : Type 0) : Type 0 where
  pub interval : ℤ
  pub has_gatherer : Bool
  pub ext_lbls : List Label
  pub senders : List (Sender A)
  pub drain_timeout : ℤ

abbrev pub second : ℕ
second = 1000000000

-- A setting that is not positive has a default.
abbrev pub or_default : ℤ → ℤ → ℤ
or_default a d = if leb_ℤ a (pos 0) then d else a

unfoldable pub host_from_url : Bytes → Bytes
unfolding cut_at cut_first
host_from_url s = elim (cut_at (codes "://") s) [
  | none ↦ s
  | some (scheme, rest) ↦ elim (cut_first b'/' rest) [ none ↦ rest | some (host, path) ↦ host ]
]

abbrev pub ends_secret : ℕ → Bool
ends_secret c = c == 13 || c == 10 || c == 9 || c == 32

-- `NewPusher`.
unfoldable pub new_pusher : {A : Type 0} → ℤ → ℤ → Bool → List Label → List (Sender A) → Pusher A
new_pusher flush drain gatherer ext senders = record {
  interval = or_default flush (pos (10 * second));
  has_gatherer = gatherer;
  ext_lbls = ext;
  senders = senders;
  drain_timeout = or_default drain (pos (5 * second));
}

unfoldable pub new_sender : {A : Type 0} → EndpointBuildSpec → Credentials → Client → Sender A
unfolding host_from_url
new_sender spec creds client = record {
  name = if equal spec.name [] then host_from_url spec.url else spec.name;
  url = spec.url;
  cfg = spec.retry;
  credentials = creds;
  external_labels = new_labels spec.external_labels;
  queue = (new_queue (or_default spec.capacity (pos 10000))).0;
  client = client;
  breaker = (new_circuit_breaker spec.breaker).0;
}

unfoldable pub first_pusher :
    {A : Type 0} → BuildOptions → EndpointBuildSpec → Credentials → Client → Pusher A
first_pusher opts spec creds client =
    new_pusher (or_default opts.flush_interval (pos (10 * second))) opts.drain_timeout
      opts.has_gatherer (new_labels spec.external_labels) (new_sender spec creds client ∷ [])

module _ (read_file : Bytes → Option Bytes) where
  unfoldable pub read_secret : Bytes → Result BuildError Bytes
  read_secret path = elim (read_file path) [
    | none ↦ err (read_failed path)
    | some b ↦ ok (trim_right ends_secret b)
  ]

  -- A secret whose file is not set is empty.
  unfoldable pub optional_secret : Bytes → Result BuildError Bytes
  unfolding read_secret
  optional_secret [] = ok []
  optional_secret (c ∷ cs) = read_secret (c ∷ cs)

  -- The password is read only if there is a user.
  unfoldable pub load_pass : Bytes → Bytes → Result BuildError Bytes
  unfolding optional_secret
  load_pass [] pass_file = ok []
  load_pass (c ∷ cs) pass_file = optional_secret pass_file

  unfoldable pub load_creds : EndpointBuildSpec → Result BuildError Credentials
  load_creds spec = do
    token ← optional_secret spec.bearer_token_file
    pass ← load_pass spec.basic_auth_user spec.basic_auth_pass_file
    ok (record {
      headers = spec.headers;
      basic_auth_user = spec.basic_auth_user;
      basic_auth_pass = pass;
      bearer_token = token;
    })

  module _ (append_certs : Bytes → Bool) where
    unfoldable pub load_roots : Bytes → Result BuildError (Option Bytes)
    load_roots [] = ok none
    load_roots (c ∷ cs) = elim (read_file (c ∷ cs)) [
      | none ↦ err (read_failed (c ∷ cs))
      | some pem ↦ if append_certs pem then ok (some pem) else err (no_certs (c ∷ cs))
    ]

    unfoldable pub new_http_client : EndpointBuildSpec → Result BuildError Client
    new_http_client spec = load_roots spec.tls_ca_file >>= λ roots. ok (record {
      timeout = or_default spec.timeout (pos (30 * second));
      insecure_skip_verify = spec.tls_insecure_verify;
      root_cas = roots;
    })

    -- `Build` for its first endpoint: the others are not read.
    unfoldable pub build_first :
        {A : Type 0} → BuildOptions → EndpointBuildSpec → Result BuildError (Pusher A)
    build_first opts spec = do
      creds ← load_creds spec
      client ← new_http_client spec
      ok (first_pusher opts spec creds client)

    unfoldable pub build : {A : Type 0} → BuildOptions → Result BuildError (Pusher A)
    build opts = elim opts.endpoints [
      | [] ↦ err no_endpoints
      | spec ∷ specs ↦ if opts.has_gatherer then build_first opts spec else err no_gatherer
    ]
