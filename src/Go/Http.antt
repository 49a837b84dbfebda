-- ===== src/Go/Http.antt =====
-- net/http: `CanonicalHeaderKey` and `Header.Set`.
use ollama_exporter.Base.{
  leb, ◌==◌, if◌then◌else◌, Bytes, codes, ℕ, ◌+◌, ◌-◌, Bool, true, not, ◌&&◌, ◌||◌, List, [], ◌∷◌,
}
use ollama_exporter.Go.Dict.{insert}
use ollama_exporter.Go.Strings.{contains}

abbrev is_upper : ℕ → Bool
is_upper c = leb b'A' c && leb c b'Z'

abbrev is_lower : ℕ → Bool
is_lower c = leb b'a' c && leb c b'z'

-- The bytes of a header field name.
unfoldable pub is_token : ℕ → Bool
unfolding contains
is_token c =
    is_upper c || is_lower c || (leb b'0' c && leb c b'9') || contains c (codes "!#$%&'*+-.^_`|~")

-- The first letter and each that follows a dash in upper case, the others in lower case; a name
-- with a byte that no token holds stays as it is.
unfoldable pub canonical_from : Bool → Bytes → Bytes
canonical_from start [] = []
canonical_from start (c ∷ cs) =
    (if start && is_lower c then c - 32 else if not start && is_upper c then c + 32 else c)
    ∷ canonical_from (c == b'-') cs

unfoldable pub all_tokens : Bytes → Bool
unfolding is_token
all_tokens [] = true
all_tokens (c ∷ cs) = is_token c && all_tokens cs

unfoldable pub canonical_header_key : Bytes → Bytes
unfolding canonical_from all_tokens
canonical_header_key k = if all_tokens k then canonical_from true k else k

abbrev pub Header : Type 0
Header = List (Bytes × Bytes)

unfoldable pub set_header : Bytes → Bytes → Header → Header
set_header k v = insert (canonical_header_key k) v
