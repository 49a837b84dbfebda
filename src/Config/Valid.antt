-- ===== src/Config/Valid.antt =====
-- What a configuration that Load accepts satisfies.
use ollama_exporter.Base.{
  ◌==◌, length, All, ◌≤ℤ◌, ℤ, pos, Bytes, codes, equal, equal_iff, ℕ, suc, ◌≡◌, ◌≢◌, ◌↔◌, ◌⊎◌, inl,
  inr, Bool, true, false, Option, none, some, List, [], ◌∷◌, arith,
}
use ollama_exporter.Base.Results.{ok, Result-cases}
use ollama_exporter.Go.Url.{url_scheme}
use ollama_exporter.Go.Http.{canonical_header_key}
use ollama_exporter.Config.Model.{Config, RemoteWriteConfig, second}
use ollama_exporter.Config.Load.{
  reject, check_scheme, is_reserved_key, check_headers, check_numbers, validate_remote_write,
  validate_all, validate,
}

abbrev pub IsNatural : ℤ → Type 0
IsNatural a = pos 0 ≤ℤ a

-- None of these numbers is negative, and a flush interval is unset or at least a second. The failure
-- threshold of the breaker may be any.
pub record HasBounds (ep : RemoteWriteConfig) : Type 0 where
  pub flush : (ep.flush_interval ≡ pos 0) ⊎ (pos second ≤ℤ ep.flush_interval)
  pub timeout : IsNatural ep.timeout
  pub max_attempts : IsNatural ep.retry.max_attempts
  pub initial_backoff : IsNatural ep.retry.initial_backoff
  pub max_backoff : IsNatural ep.retry.max_backoff
  pub max_elapsed : IsNatural ep.retry.max_elapsed
  pub window : IsNatural ep.circuit_breaker.window
  pub cooldown : IsNatural ep.circuit_breaker.cooldown
  pub capacity : IsNatural ep.capacity

check_numbers_sound :
    (idx : ℕ) (ep : RemoteWriteConfig) → check_numbers idx ep ≡ ok tt → HasBounds ep
unfolding check_numbers
check_numbers_sound idx ep h = ground arith

check_numbers_complete :
    (idx : ℕ) (ep : RemoteWriteConfig) → HasBounds ep → check_numbers idx ep ≡ ok tt
unfolding check_numbers
check_numbers_complete idx ep h = ground arith

-- `https`, or `http` where the entry allows plaintext.
abbrev pub HasScheme : Option Bytes → Bool → Type 0
HasScheme s insecure = (s ≡ some (codes "https")) ⊎ ((s ≡ some (codes "http")) × (insecure ≡ true))

-- A header that is none of those that a request sets itself, in whatever letters it is written.
abbrev pub IsFree : Bytes × Bytes → Type 0
IsFree h =
    (canonical_header_key h.0 ≢ codes "Authorization")
    × (canonical_header_key h.0 ≢ codes "Content-Encoding")
    × (canonical_header_key h.0 ≢ codes "Content-Type")
    × (canonical_header_key h.0 ≢ codes "X-Prometheus-Remote-Write-Version")

is_reserved_key_iff :
    (h : Bytes × Bytes) → (is_reserved_key (canonical_header_key h.0) ≡ false) ↔ IsFree h
unfolding is_reserved_key
is_reserved_key_iff (k, v) =
    let ck = canonical_header_key k in
    ground (
      arith,
      equal_iff ck (codes "Authorization"),
      equal_iff ck (codes "Content-Encoding"),
      equal_iff ck (codes "Content-Type"),
      equal_iff ck (codes "X-Prometheus-Remote-Write-Version"),
    )

check_scheme_iff :
    (idx : ℕ) (insecure : Bool) (s : Option Bytes)
    → (check_scheme idx insecure s ≡ ok tt) ↔ HasScheme s insecure
unfolding check_scheme reject equal
check_scheme_iff idx insecure none = ground arith
check_scheme_iff idx insecure (some s) =
    ground (arith, equal_iff s (codes "https"), equal_iff s (codes "http"))

check_headers_iff :
    (idx : ℕ) (hs : List (Bytes × Bytes)) → (check_headers idx hs ≡ ok tt) ↔ All IsFree hs
unfolding check_headers
check_headers_iff idx [] = ground arith
check_headers_iff idx (h ∷ hs) = ground (arith, check_headers_iff idx hs, is_reserved_key_iff h)

-- An endpoint of a valid configuration. `accepts` is what url.Parse asks of a text besides its
-- scheme.
pub record IsValidEndpoint (accepts : Bytes → Bool) (ep : RemoteWriteConfig) : Type 0 where
  pub has_url : ep.url ≢ []
  pub scheme : HasScheme (url_scheme accepts ep.url) ep.insecure_http
  pub one_auth : (ep.basic_auth ≡ none) ⊎ (ep.bearer_token_file ≡ [])
  pub free_headers : All IsFree ep.headers
  pub bounds : HasBounds ep

module _ (accepts : Bytes → Bool) where
  validate_remote_write_sound :
      (idx : ℕ) (ep : RemoteWriteConfig)
      → validate_remote_write accepts idx ep ≡ ok tt
      → IsValidEndpoint accepts ep
  unfolding validate_remote_write
  validate_remote_write_sound idx ep h = ground (
    arith,
    equal_iff ep.url [],
    equal_iff ep.bearer_token_file [],
    check_scheme_iff idx ep.insecure_http (url_scheme accepts ep.url),
    check_headers_iff idx ep.headers,
    check_numbers_sound idx ep,
  )

  validate_remote_write_complete :
      (idx : ℕ) (ep : RemoteWriteConfig)
      → IsValidEndpoint accepts ep
      → validate_remote_write accepts idx ep ≡ ok tt
  unfolding validate_remote_write
  validate_remote_write_complete idx ep v = ground (
    arith,
    equal_iff ep.url [],
    equal_iff ep.bearer_token_file [],
    check_scheme_iff idx ep.insecure_http (url_scheme accepts ep.url),
    check_headers_iff idx ep.headers,
    check_numbers_complete idx ep,
  )

  validate_all_iff :
      (i : ℕ) (eps : List RemoteWriteConfig)
      → (validate_all accepts i eps ≡ ok tt) ↔ All (IsValidEndpoint accepts) eps
  unfolding validate_all
  validate_all_iff i [] = ground arith
  validate_all_iff i (ep ∷ eps) = elim (Result-cases (validate_remote_write accepts i ep)) [
    | inl (u, e) ↦ (
      λ h. (validate_remote_write_sound i ep e, (validate_all_iff (suc i) eps).0 (rw e at h)),
      λ v. rw e ((validate_all_iff (suc i) eps).1 v.1),
    )
    | inr (e, r) ↦ (λ h. cc (rw r at h), λ v. cc (r, validate_remote_write_complete i ep v.0))
  ]

length_zero_iff {ℓ} : {A : Type ℓ} (xs : List A) → ((length xs == 0) ≡ true) ↔ (xs ≡ [])
length_zero_iff [] = ground arith
length_zero_iff (x ∷ xs) = ground arith

-- What Load promises of a configuration.
pub record IsValid (accepts : Bytes → Bool) (c : Config) : Type 0 where
  pub has_url : c.ollama_url ≢ []
  pub slow : pos second ≤ℤ c.poll_interval
  pub endpoints : All (IsValidEndpoint accepts) c.remote_write
  pub has_output : (c.metrics_endpoint.enabled ≡ true) ⊎ (c.remote_write ≢ [])

-- Validation accepts a configuration exactly when Ollama's URL is set, the poll interval is a second
-- at least, metrics are served or pushed, and each endpoint has a URL of scheme https, or http where
-- it allows plaintext, one kind of credentials at most, none of the headers Authorization,
-- Content-Encoding, Content-Type and X-Prometheus-Remote-Write-Version in any spelling, no negative
-- timeout, capacity, window, cooldown or bound of the retries, and a flush interval that is unset or
-- a second at least. The failure threshold of the breaker may be any number.
pub validate_iff :
    (accepts : Bytes → Bool) (c : Config) → (validate accepts c ≡ ok tt) ↔ IsValid accepts c
unfolding validate
validate_iff accepts c = (
  λ h. ground (
    arith,
    equal_iff c.ollama_url [],
    validate_all_iff accepts 0 c.remote_write,
    length_zero_iff c.remote_write,
  ),
  λ v. ground (
    arith,
    equal_iff c.ollama_url [],
    validate_all_iff accepts 0 c.remote_write,
    length_zero_iff c.remote_write,
  ),
)
