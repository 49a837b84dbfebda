-- ===== src/RemoteWrite/Build/Ready.antt =====
-- What `Build` makes of an endpoint whose files can be read.
use ollama_exporter.Base.{
  pos_part, ◌<ℤ◌, ℤ, pos, Bytes, ◌*◌, ◌≡◌, refl, ◌⊎◌, inl, inr, Bool, true, false, Option, none,
  some, [], ◌∷◌, arith,
}
use ollama_exporter.Base.Results.{ok}
use ollama_exporter.Go.Strings.{trim_right}
use ollama_exporter.RemoteWrite.Queue.{Queue, new_queue}
use ollama_exporter.RemoteWrite.Queue.Inv.{IsValid, new_queue-IsValid}
use ollama_exporter.RemoteWrite.Queue.Fifo.{contents}
use ollama_exporter.RemoteWrite.Breaker.{breaker_closed, new_circuit_breaker}
use ollama_exporter.RemoteWrite.Sender.Credentials.{Credentials}
use ollama_exporter.RemoteWrite.Build.{
  EndpointBuildSpec, BuildOptions, Client, Sender, Pusher, second, or_default, ends_secret,
  read_secret, optional_secret, load_pass, load_creds, load_roots, new_http_client, new_pusher,
  new_sender, first_pusher, build_first,
}

-- The queue of a new sender: valid, open and empty.
abbrev pub IsFresh : {A : Type 0} → Queue A → Type 0
IsFresh q = IsValid q × (q.closed ≡ false) × (contents q ≡ [])

-- Whatever its capacity is, a new queue is fresh.
pub new_queue-IsFresh : {A : Type 0} (c : ℤ) → IsFresh (new_queue {A = A} c).0
new_queue-IsFresh c = (new_queue-IsValid c, unfold new_queue in refl, unfold new_queue in refl)

module _ (read_file : Bytes → Option Bytes) (append_certs : Bytes → Bool) where
  -- A file that is not set, or can be read.
  abbrev pub HasFile : Bytes → Type 0
  HasFile path = (path ≡ []) ⊎ ((b : Bytes) × (read_file path ≡ some b))

  abbrev pub HasCerts : Bytes → Type 0
  HasCerts path = (path ≡ []) ⊎ ((b : Bytes) × (read_file path ≡ some b) × (append_certs b ≡ true))

  pub record HasFiles (spec : EndpointBuildSpec) : Type 0 where
    pub token : HasFile spec.bearer_token_file
    pub pass : HasFile spec.basic_auth_pass_file
    pub certs : HasCerts spec.tls_ca_file

  optional_secret_found :
      (path : Bytes)
      → HasFile path
      → (t : Bytes) × (optional_secret read_file path ≡ ok t) × (path ≡ [] → t ≡ [])
  unfolding optional_secret read_secret
  optional_secret_found [] h = ([], refl, λ e. refl)
  optional_secret_found (c ∷ cs) (inl e) = cc
  optional_secret_found (c ∷ cs) (inr (b, r)) =
      (trim_right ends_secret b, rw (r, read_secret), λ e. cc e)

  load_roots_found :
      (path : Bytes)
      → HasCerts path
      → (r : Option Bytes) × (load_roots read_file append_certs path ≡ ok r)
  unfolding load_roots
  load_roots_found [] h = (none, refl)
  load_roots_found (c ∷ cs) (inl e) = cc
  load_roots_found (c ∷ cs) (inr (b, r, a)) = (some b, rw (r, load_roots, a))

  -- The password is read where there is a user.
  load_pass_found :
      (user path : Bytes) → HasFile path → (t : Bytes) × (load_pass read_file user path ≡ ok t)
  unfolding load_pass
  load_pass_found [] path h = ([], refl)
  load_pass_found (c ∷ cs) path h = let (t, e, n) = optional_secret_found path h in (t, e)

  load_creds_found :
      (spec : EndpointBuildSpec)
      → HasFile spec.bearer_token_file
      → HasFile spec.basic_auth_pass_file
      → (c : Credentials) × (load_creds read_file spec ≡ ok c)
        × (c.headers ≡ spec.headers)
        × (c.basic_auth_user ≡ spec.basic_auth_user)
        × (spec.bearer_token_file ≡ [] → c.bearer_token ≡ [])
  unfolding load_creds
  load_creds_found spec h k =
      let (token, e, n) = optional_secret_found spec.bearer_token_file h in
      let (pass, e') = load_pass_found spec.basic_auth_user spec.basic_auth_pass_file k in
      (
        record {
          headers = spec.headers;
          basic_auth_user = spec.basic_auth_user;
          basic_auth_pass = pass;
          bearer_token = token;
        },
        rw (load_creds, e, e'),
        refl,
        refl,
        n,
      )

  new_http_client_found :
      (spec : EndpointBuildSpec)
      → HasCerts spec.tls_ca_file
      → (c : Client) × (new_http_client read_file append_certs spec ≡ ok c) × (pos 0 <ℤ c.timeout)
  unfolding new_http_client
  new_http_client_found spec h =
      let (roots, e) = load_roots_found spec.tls_ca_file h in
      (
        record {
          timeout = or_default spec.timeout (pos (30 * second));
          insecure_skip_verify = spec.tls_insecure_verify;
          root_cas = roots;
        },
        rw (new_http_client, e),
        ground arith,
      )

-- A sender and its pusher, ready to run.
pub record IsReady {A : Type 0} (opts : BuildOptions) (spec : EndpointBuildSpec) (p : Pusher A)
    (s : Sender A) : Type 0 where
  pub only : p.senders ≡ s ∷ []
  pub gathers : p.has_gatherer ≡ true
  pub interval : p.interval ≡ or_default opts.flush_interval (pos (10 * second))
  pub drains : pos 0 <ℤ p.drain_timeout
  pub fresh : IsFresh s.queue
  pub room : s.queue.cap ≡ pos_part (or_default spec.capacity (pos 10000))
  pub url : s.url ≡ spec.url
  pub cfg : s.cfg ≡ spec.retry
  pub waits : pos 0 <ℤ s.client.timeout
  pub closed : s.breaker.state ≡ breaker_closed
  pub no_failures : s.breaker.failures ≡ []
  pub window : pos 0 <ℤ s.breaker.window
  pub threshold : pos 0 <ℤ s.breaker.failure_threshold
  pub headers : s.credentials.headers ≡ spec.headers
  pub user : s.credentials.basic_auth_user ≡ spec.basic_auth_user
  pub no_token : spec.bearer_token_file ≡ [] → s.credentials.bearer_token ≡ []

new_sender-IsReady :
    {A : Type 0} (opts : BuildOptions) (spec : EndpointBuildSpec) (c : Credentials)
    (client : Client)
    → opts.has_gatherer ≡ true
    → c.headers ≡ spec.headers
    → c.basic_auth_user ≡ spec.basic_auth_user
    → (spec.bearer_token_file ≡ [] → c.bearer_token ≡ [])
    → pos 0 <ℤ client.timeout
    → IsReady {A = A} opts spec (first_pusher opts spec c client) (new_sender spec c client)
new_sender-IsReady opts spec c client g hs u n w = record {
  only = unfold first_pusher new_pusher in refl;
  gathers = unfold first_pusher new_pusher in g;
  interval = unfold first_pusher new_pusher in ground arith;
  drains = unfold first_pusher new_pusher in ground arith;
  fresh = unfold new_sender in new_queue-IsFresh (or_default spec.capacity (pos 10000));
  room = unfold new_sender new_queue in ground arith;
  url = unfold new_sender in refl;
  cfg = unfold new_sender in refl;
  waits = unfold new_sender in w;
  closed = unfold new_sender new_circuit_breaker in refl;
  no_failures = unfold new_sender new_circuit_breaker in refl;
  window = unfold new_sender new_circuit_breaker in ground arith;
  threshold = unfold new_sender new_circuit_breaker in ground arith;
  headers = unfold new_sender in hs;
  user = unfold new_sender in u;
  no_token = unfold new_sender in n;
}

module _ (read_file : Bytes → Option Bytes) (append_certs : Bytes → Bool) where
  pub build_first-IsReady :
      {A : Type 0} (opts : BuildOptions) (spec : EndpointBuildSpec)
      → opts.has_gatherer ≡ true
      → HasFiles read_file append_certs spec
      → (p : Pusher A) × (s : Sender A) × (build_first read_file append_certs opts spec ≡ ok p)
        × IsReady opts spec p s
  unfolding build_first
  build_first-IsReady opts spec g h =
      let (c, e, hs, u, n) = load_creds_found read_file append_certs spec h.token h.pass in
      let (client, e', w) = new_http_client_found read_file append_certs spec h.certs in
      (
        first_pusher opts spec c client,
        new_sender spec c client,
        rw (build_first, e, e'),
        new_sender-IsReady opts spec c client g hs u n w,
      )
