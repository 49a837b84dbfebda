-- ===== src/RemoteWrite/Sender/Credentials.antt =====
-- `composeHeaders` of sender.go and `basicAuthHeader`: the headers that an endpoint is configured to
-- send. The encoding in base64 is a parameter.
use ollama_exporter.Base.{
  if◌then◌else◌, Bool-cases, Bytes, codes, equal, equal_iff, ◌≡◌, refl, ap, ◌∙◌, ◌≢◌, inl, inr,
  Bool, true, false, ◌&&◌, Option, none, some, List, [], ◌∷◌, ◌++◌, arith,
}
use ollama_exporter.Go.Dict.{lookup, insert, lookup-insert}

pub record Credentials : Type 0 where
  pub headers : List (Bytes × Bytes)
  pub basic_auth_user : Bytes
  pub basic_auth_pass : Bytes
  pub bearer_token : Bytes

abbrev pub is_set : Bytes → Bool
is_set [] = false
is_set (_ ∷ _) = true

unfoldable pub basic_auth_header : (Bytes → Bytes) → Bytes → Bytes → Bytes
basic_auth_header base64 user pass = codes "Basic " ++ base64 (user ++ b':' ∷ pass)

-- A copy of the configured map.
unfoldable pub copy_headers : List (Bytes × Bytes) → List (Bytes × Bytes) → List (Bytes × Bytes)
copy_headers [] out = out
copy_headers ((k, v) ∷ hs) out = copy_headers hs (insert k v out)

unfoldable pub compose_headers : (Bytes → Bytes) → Credentials → List (Bytes × Bytes)
compose_headers base64 cfg =
    let out = copy_headers cfg.headers [] in
    if is_set cfg.bearer_token
    then insert (codes "Authorization") (codes "Bearer " ++ cfg.bearer_token) out
    else if is_set cfg.basic_auth_user
    then insert (codes "Authorization")
        (basic_auth_header base64 cfg.basic_auth_user cfg.basic_auth_pass) out
    else out

-- A Go map has each key once.
abbrev pub HasKey : Bytes → List (Bytes × Bytes) → Type 0
HasKey k hs = lookup k hs ≢ none

abbrev pub IsMap : List (Bytes × Bytes) → Type 0
IsMap [] = Unit
IsMap ((k, v) ∷ hs) = (lookup k hs ≡ none) × IsMap hs

abbrev or_else : Option Bytes → Option Bytes → Option Bytes
or_else none b = b
or_else (some a) b = some a

copy_headers-lookup :
    (k : Bytes) (hs out : List (Bytes × Bytes))
    → IsMap hs
    → lookup k (copy_headers hs out) ≡ or_else (lookup k hs) (lookup k out)
unfolding copy_headers lookup
copy_headers-lookup k [] out m = refl
copy_headers-lookup k ((j, v) ∷ hs) out (p, m) =
    copy_headers-lookup k hs (insert j v out) m ∙ elim (Bool-cases (equal j k)) [
      | inl e ↦
          ground (arith, lookup-insert j k v out, ap (λ x. lookup x hs) ((equal_iff j k).0 e), p)
      | inr e ↦ ground (arith, lookup-insert j k v out)
    ]

-- Where the configured headers have each key once, these are the credentials that count: a bearer
-- token before basic authentication, and either before an `Authorization` among the configured
-- headers; every other header is sent as configured.
pub compose_headers-lookup :
    (base64 : Bytes → Bytes) (cfg : Credentials) (k : Bytes)
    → IsMap cfg.headers
    → lookup k (compose_headers base64 cfg) ≡ (
        if equal (codes "Authorization") k && is_set cfg.bearer_token
        then some (codes "Bearer " ++ cfg.bearer_token)
        else if equal (codes "Authorization") k && is_set cfg.basic_auth_user
        then some (basic_auth_header base64 cfg.basic_auth_user cfg.basic_auth_pass)
        else lookup k cfg.headers)
unfolding compose_headers lookup
compose_headers-lookup base64 cfg k m =
    let out = copy_headers cfg.headers [] in
    ground (
      arith,
      copy_headers-lookup k cfg.headers [] m,
      lookup-insert (codes "Authorization") k (codes "Bearer " ++ cfg.bearer_token) out,
      lookup-insert (codes "Authorization") k
          (basic_auth_header base64 cfg.basic_auth_user cfg.basic_auth_pass) out,
    )
