-- ===== src/RemoteWrite/Wire.antt =====
-- internal/remotewrite/wire.go and errors.go: one POST of an encoded batch, and what its result
-- means for a retry. The transport, the encoder and the parser of HTTP dates are outside: what they
-- return are arguments. An error's text is left out.
pub mod Status
pub mod Headers
use ollama_exporter.Base.{
  ltb, leb, ◌==◌, if◌then◌else◌, ◌-ℤ◌, ltb_ℤ, wrap64, sat64, ℤ, pos, negsuc, Bytes, codes, equal, ℕ,
  ◌*◌, Bool, true, false, ◌&&◌, ◌||◌, Option, none, some, List, [], ◌∷◌, ◌++◌,
}
use ollama_exporter.Go.Strconv.{atoi}
use ollama_exporter.Go.Http.{Header, canonical_header_key, set_header}
use ollama_exporter.RemoteWrite.Queue.{CtxErr}

-- `ErrRetryable`, `ErrNonRetryable`, an error of the context reported verbatim, any other error.
-- A status of 0 is a failed transport. `nil` is the `none` of an option.
pub data SendError : Type 0 where
  err_retryable : ℕ → ℤ → SendError
  err_non_retryable : ℕ → SendError
  err_context : CtxErr → SendError
  err_build : SendError

unfoldable pub is_retryable : SendError → Bool
is_retryable (err_retryable status after) = true
is_retryable _ = false

unfoldable pub is_non_retryable : SendError → Bool
is_non_retryable (err_non_retryable status) = true
is_non_retryable _ = false

-- What `client.Do` returns: a response, or an error that is or is not one of the context.
pub data Reply : Type 0 where
  response : ℕ → Bytes → Reply
  failed : Option CtxErr → Reply

abbrev pub second : ℕ
second = 1000000000

-- int64 `secs * time.Second` for a number of seconds that is not negative.
unfoldable pub seconds64 : ℕ → ℤ
unfolding wrap64
seconds64 secs = wrap64 (pos (secs * second))

unfoldable pub classify_transport_error : Option CtxErr → SendError
classify_transport_error none = err_retryable 0 (pos 0)
classify_transport_error (some e) = err_context e

-- The HTTP-date form: the time left until then, if any is left.
unfoldable pub date_delay : ℤ → Option ℤ → ℤ
unfolding sat64 ◌-ℤ◌
date_delay now none = pos 0
date_delay now (some t) = let d = sat64 (t -ℤ now) in if ltb_ℤ (pos 0) d then d else pos 0

-- `parse_time` is `http.ParseTime`.
unfoldable pub parse_retry_after : (Bytes → Option ℤ) → Bytes → ℤ → ℤ
unfolding seconds64 date_delay
parse_retry_after parse_time [] now = pos 0
parse_retry_after parse_time (c ∷ cs) now = elim (atoi (c ∷ cs)) [
  | some (pos secs) ↦ seconds64 secs
  | some (negsuc secs) ↦ pos 0
  | none ↦ date_delay now (parse_time (c ∷ cs))
]

unfoldable pub classify_status : (Bytes → Option ℤ) → ℕ → Bytes → ℤ → Option SendError
classify_status parse_time status header now =
    if leb 200 status && ltb status 300
    then none
    else if status == 400 || status == 401 || status == 403 || status == 404
    then some (err_non_retryable status)
    else if status == 408 || status == 429
    then some (err_retryable status (parse_retry_after parse_time header now))
    else if leb 500 status && ltb status 600
    then some (err_retryable status (parse_retry_after parse_time header now))
    else some (err_retryable status (pos 0))

unfoldable pub classify_reply : (Bytes → Option ℤ) → Reply → ℤ → Option SendError
unfolding classify_status classify_transport_error
classify_reply parse_time (response status header) now =
    classify_status parse_time status header now
classify_reply parse_time (failed e) now = some (classify_transport_error e)

-- A result of `none` for the reply: the request could not be built.
unfoldable pub send_write_request : (Bytes → Option ℤ) → Option Reply → ℤ → Option SendError
unfolding classify_reply
send_write_request parse_time none now = some err_build
send_write_request parse_time (some reply) now = classify_reply parse_time reply now

abbrev pub reserved_headers : List Bytes
reserved_headers =
    codes "Content-Encoding" ∷ codes "Content-Type" ∷ codes "X-Prometheus-Remote-Write-Version" ∷ []

unfoldable pub is_reserved : List Bytes → Bytes → Bool
is_reserved [] k = false
is_reserved (r ∷ rs) k = equal r k || is_reserved rs k

-- The loop over the caller's headers, in any order that the map gives.
unfoldable pub apply_headers : List (Bytes × Bytes) → Header → Header
apply_headers [] h = h
apply_headers ((k, v) ∷ rest) h =
    apply_headers rest
      (if is_reserved reserved_headers (canonical_header_key k) then h else set_header k v h)

-- The headers of the request that is sent.
unfoldable pub request_headers : Bytes → List (Bytes × Bytes) → Header
unfolding apply_headers
request_headers user_agent headers =
    let h1 = set_header (codes "Content-Encoding") (codes "snappy") [] in
    let h2 = set_header (codes "Content-Type") (codes "application/x-protobuf") h1 in
    let h3 = set_header (codes "X-Prometheus-Remote-Write-Version") (codes "0.1.0") h2 in
    apply_headers headers (set_header (codes "User-Agent") user_agent h3)

unfoldable pub user_agent_of : Bytes → Bytes
user_agent_of [] = codes "ollama-exporter/dev"
user_agent_of (c ∷ cs) = codes "ollama-exporter/" ++ (c ∷ cs)
