-- ===== src/Exporter/Runs.antt =====
-- From the configuration file to the samples that the sender of its first endpoint is offered.
use ollama_exporter.Base.{
  length, All, ◌≤ℤ◌, ◌<ℤ◌, pos, Bytes, ℕ, ◌+◌, ◌<◌, ◌≡◌, refl, sym, ap, ◌∙◌, subst, ◌⊎◌, inl, inr,
  Bool, true, Option, none, some, List, [], ◌∷◌, arith,
}
use ollama_exporter.Base.Results.{ok}
use ollama_exporter.Config.Model.{Config, RemoteWriteConfig}
use ollama_exporter.Config.Valid.{IsValidEndpoint}
use ollama_exporter.RemoteWrite.Queue.{CtxErr}
use ollama_exporter.RemoteWrite.Breaker.{breaker_closed}
use ollama_exporter.Config.Load.{ReadFile, load}
use ollama_exporter.Config.Loaded.{load-IsValid}
use ollama_exporter.RemoteWrite.Build.{Pusher, Sender, build, build_first}
use ollama_exporter.RemoteWrite.Build.Ready.{HasFiles, IsReady, IsFresh, build_first-IsReady}
use ollama_exporter.RemoteWrite.Pusher.{Event, Feed, run_pusher}
use ollama_exporter.RemoteWrite.Pusher.Deliver.{
  HasAccepted, gathered_in, ticked, run_pusher_delivers,
}
use ollama_exporter.Exporter.{to_build_spec, options_of, build_pusher, second, user_of}

module _ (read_file : Bytes → Option Bytes) (append_certs : Bytes → Bool) where
  build_pusher-first :
      {A : Type 0} (ep : RemoteWriteConfig) (eps : List RemoteWriteConfig) {p : Pusher A}
      → build_first read_file append_certs (options_of ep) (to_build_spec ep) ≡ ok p
      → build_pusher read_file append_certs (ep ∷ eps) ≡ ok (some p)
  unfolding build_pusher build options_of
  build_pusher-first ep eps e = rw e

-- A pusher of one sender for an endpoint of a valid configuration: it flushes at most once a second
-- and drains for a time that is set; the sender posts to the endpoint's URL with its headers, has one
-- kind of credentials at most, a timeout and room for a batch, and counts its failures from none in
-- a window that is not empty.
pub record IsSound {A : Type 0} (ep : RemoteWriteConfig) (p : Pusher A) (s : Sender A)
    : Type 0 where
  pub only : p.senders ≡ s ∷ []
  pub slow : pos second ≤ℤ p.interval
  pub drains : pos 0 <ℤ p.drain_timeout
  pub url : s.url ≡ ep.url
  pub headers : s.credentials.headers ≡ ep.headers
  pub one_auth : (s.credentials.basic_auth_user ≡ []) ⊎ (s.credentials.bearer_token ≡ [])
  pub waits : pos 0 <ℤ s.client.timeout
  pub room : 0 < s.queue.cap
  pub closed : s.breaker.state ≡ breaker_closed
  pub no_failures : s.breaker.failures ≡ []
  pub window : pos 0 <ℤ s.breaker.window

one_auth-IsReady :
    {A : Type 0} (ep : RemoteWriteConfig) (p : Pusher A) (s : Sender A)
    → (ep.basic_auth ≡ none) ⊎ (ep.bearer_token_file ≡ [])
    → IsReady (options_of ep) (to_build_spec ep) p s
    → (s.credentials.basic_auth_user ≡ []) ⊎ (s.credentials.bearer_token ≡ [])
one_auth-IsReady ep p s (inl e) r = inl (r.user ∙ unfold to_build_spec in ap user_of e)
one_auth-IsReady ep p s (inr e) r = inr (r.no_token (unfold to_build_spec in e))

IsReady-IsSound :
    {A : Type 0} (accepts : Bytes → Bool) (ep : RemoteWriteConfig) (p : Pusher A) (s : Sender A)
    → IsValidEndpoint accepts ep
    → IsReady (options_of ep) (to_build_spec ep) p s
    → IsSound ep p s
IsReady-IsSound accepts ep p s v r = record {
  only = r.only;
  slow = let b = v.bounds in let e = r.interval in unfold options_of in ground arith;
  drains = r.drains;
  url = r.url ∙ unfold to_build_spec in refl;
  headers = r.headers ∙ unfold to_build_spec in refl;
  one_auth = one_auth-IsReady ep p s v.one_auth r;
  waits = r.waits;
  room = r.fresh.0.room;
  closed = r.closed;
  no_failures = r.no_failures;
  window = r.window;
}

single :
    {X : Type 0} (holds : X → Type 0) (xs : List X)
    → length xs ≡ 1
    → All holds xs
    → (x : X) × (xs ≡ x ∷ []) × holds x
single holds [] e h = absurd (omega (arith, e))
single holds (x ∷ []) e h = (x, refl, h.0)
single holds (x ∷ y ∷ xs) e h = absurd (omega (arith, e))

IsReady-runs :
    {A : Type 0} (ep : RemoteWriteConfig) (p : Pusher A) (s : Sender A)
    → IsReady (options_of ep) (to_build_spec ep) p s
    → (first : Option (List A)) (events : List (Event A)) (draining : List (ℕ × Option CtxErr))
    → (feed : Feed A) × (run_pusher p first events draining ≡ feed ∷ [])
      × HasAccepted true (gathered_in first + ticked events) feed
IsReady-runs ep p s r first events draining =
    let fresh = subst (All (λ (t : Sender _). IsFresh t.queue)) (sym r.only) (r.fresh, tt) in
    let (len, kept) = run_pusher_delivers p first events draining r.gathers fresh in
    single (HasAccepted true (gathered_in first + ticked events))
      (run_pusher p first events draining) (len ∙ ap length r.only) kept

-- A configuration that Load returned, with an endpoint of which the named files can be read, gives a
-- sound pusher for its first endpoint; and in any run of it, however the sender takes batches in
-- between, the sender is offered every sample of every successful gathering exactly once, its queue
-- is closed at the end, and each of the samples was reported as dropped, was handed to the sender or
-- is still held.
pub loaded_runs :
    {A : Type 0} (scaled : ℕ → ℕ → ℕ → ℕ) (accepts : Bytes → Bool)
    (read_file : Bytes → Option Bytes) (append_certs : Bytes → Bool) (file : ReadFile)
    (url addr : Bytes) (c : Config) (ep : RemoteWriteConfig) (eps : List RemoteWriteConfig)
    → load scaled accepts file url addr ≡ ok c
    → c.remote_write ≡ ep ∷ eps
    → HasFiles read_file append_certs (to_build_spec ep)
    → (p : Pusher A) × (s : Sender A) × (build_pusher read_file append_certs c.remote_write
        ≡ ok (some p))
      × IsSound ep p s
      × ((first : Option (List A)) (events : List (Event A)) (draining : List (ℕ × Option CtxErr))
          → (feed : Feed A) × (run_pusher p first events draining ≡ feed ∷ [])
            × HasAccepted true (gathered_in first + ticked events) feed)
loaded_runs scaled accepts read_file append_certs file url addr c ep eps h e files =
    let (p, s, b, r) =
      build_first-IsReady read_file append_certs (options_of ep) (to_build_spec ep)
        (unfold options_of in refl) files in
    let valid =
      subst (All (IsValidEndpoint accepts)) e
        ((load-IsValid scaled accepts file url addr c).0 h).0.endpoints in
    (
      p,
      s,
      ap (build_pusher read_file append_certs) e
          ∙ build_pusher-first read_file append_certs ep eps b,
      IsReady-IsSound accepts ep p s valid.0 r,
      IsReady-runs ep p s r,
    )
