-- ===== src/RemoteWrite/Wire/Headers.antt =====
-- No header of the caller replaces one that the protocol needs.
use ollama_exporter.Base.{
  Bool-cases, Bytes, codes, equal, equal_iff, ◌≡◌, refl, ap, ◌∙◌, inl, inr, true, false, some, List,
  [], ◌∷◌, arith,
}
use ollama_exporter.Go.Dict.{lookup, lookup-insert, insert}
use ollama_exporter.Go.Http.{Header, canonical_header_key, set_header}
use ollama_exporter.RemoteWrite.Wire.{reserved_headers, is_reserved, apply_headers, request_headers}

-- A reserved name keeps its value through the loop.
apply_headers-lookup :
    (headers : List (Bytes × Bytes)) (h : Header) (name : Bytes)
    → is_reserved reserved_headers name ≡ true
    → lookup name (apply_headers headers h) ≡ lookup name h
unfolding apply_headers set_header
apply_headers-lookup [] h name r = refl
apply_headers-lookup ((k, v) ∷ rest) h name r =
    apply_headers-lookup rest _ name r
    ∙ elim (Bool-cases (is_reserved reserved_headers (canonical_header_key k))) [
      | inl e ↦ rw e
      | inr e ↦ rw e (
          lookup-insert (canonical_header_key k) name v h
          ∙ ground (arith, equal_iff (canonical_header_key k) name, same e))
    ]
  where
    same :
        is_reserved reserved_headers (canonical_header_key k) ≡ false
        → equal (canonical_header_key k) name ≡ false
    same e = elim (Bool-cases (equal (canonical_header_key k) name)) [
      | inl q ↦
          cc (ap (is_reserved reserved_headers) ((equal_iff (canonical_header_key k) name).0 q))
      | inr q ↦ q
    ]

-- Whatever headers the caller gives, in whatever order, the request carries the encoding, the
-- content type and the protocol version of Remote Write.
pub request_headers_reserved :
    (user_agent : Bytes) (headers : List (Bytes × Bytes))
    → let h = request_headers user_agent headers in
      (lookup (codes "Content-Encoding") h ≡ some (codes "snappy"))
      × (lookup (codes "Content-Type") h ≡ some (codes "application/x-protobuf"))
      × (lookup (codes "X-Prometheus-Remote-Write-Version") h ≡ some (codes "0.1.0"))
unfolding request_headers is_reserved set_header lookup insert canonical_header_key equal
request_headers_reserved user_agent headers = (
  apply_headers-lookup headers _ (codes "Content-Encoding") refl,
  apply_headers-lookup headers _ (codes "Content-Type") refl,
  apply_headers-lookup headers _ (codes "X-Prometheus-Remote-Write-Version") refl,
)
