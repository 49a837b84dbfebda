-- ===== src/Collector/Proxy/RequestBody.antt =====
-- proxy.go: what becomes of a request's body. `instrumentedHandler` reads the first 64 KiB of it
-- through an eofReader and hands on a prefixBody. The inbound body is a reader that gives its chunks,
-- each in as many reads as the caller's buffers need, and then its ending, with the last chunk or
-- behind it.
pub mod Reads
pub mod Forwarded
use ollama_exporter.Base.{
  leb, ◌==◌, if◌then◌else◌, length, take, drop, Bytes, ℕ, ◌+◌, ◌-◌, Bool, true, false, ◌&&◌, ◌||◌,
  Option, none, some, List, [], ◌∷◌, ◌++◌,
}

-- `io.EOF`, or another error.
pub data End : Type 0 where
  eof broken : End

abbrev pub is_eof : Option End → Bool
is_eof none = false
is_eof (some eof) = true
is_eof (some broken) = false

-- `late_reads` counts the reads behind an EOF, which net/http does not allow.
pub record Source : Type 0 where
  pub chunks : List Bytes
  pub ending : End
  pub together : Bool
  pub ended : Bool
  pub late_reads : ℕ

-- `n, err := r.Read(p)` for a buffer of a length.
abbrev pub ReadBy : Type 0 → Type 0
ReadBy R = Bytes × Option End × R

unfoldable pub read_end : Source → ReadBy Source
read_end s = (
  [],
  some s.ending,
  record s {
    chunks = [];
    ended = s.ended || is_eof (some s.ending);
    late_reads = s.late_reads + (if s.ended then 1 else 0);
  },
)

unfoldable pub read_last : Bytes → Source → ReadBy Source
read_last c s =
    if s.together
    then (c, some s.ending, record s { chunks = []; ended = is_eof (some s.ending) })
    else (c, none, record s { chunks = [] })

unfoldable pub read_whole : Bytes → List Bytes → Source → ReadBy Source
unfolding read_last
read_whole c [] s = read_last c s
read_whole c (d ∷ cs) s = (c, none, record s { chunks = d ∷ cs })

unfoldable pub read_chunk : ℕ → List Bytes → Source → ReadBy Source
unfolding read_end read_whole
read_chunk k [] s = read_end s
read_chunk k (c ∷ cs) s =
    if leb (length c) k
    then read_whole c cs s
    else (take k c, none, record s { chunks = drop k c ∷ cs })

pub record EofReader : Type 0 where
  pub reader : Source
  pub eof : Bool

unfoldable pub eof_read : ℕ → EofReader → ReadBy EofReader
unfolding read_chunk
eof_read k r =
    if r.eof
    then ([], some eof, r)
    else let (bs, e, s) = read_chunk k r.reader.chunks r.reader in
      (bs, e, record { reader = s; eof = is_eof e })

abbrev min_ℕ : ℕ → ℕ → ℕ
min_ℕ a b = if leb a b then a else b

-- `io.LimitReader`, with the bytes that it still gives.
unfoldable pub limited_read : ℕ → ℕ → EofReader → Bytes × Option End × ℕ × EofReader
unfolding eof_read
limited_read k n r =
    if n == 0
    then ([], some eof, n, r)
    else let (bs, e, s) = eof_read (min_ℕ k n) r in (bs, e, n - length bs, s)

-- What `io.ReadAll` returns: the bytes, whether with an error, and the reader behind it.
abbrev pub ReadAll : Type 0
ReadAll = Bytes × Bool × EofReader

-- The end of a round: it goes on unless the read gave an error.
unfoldable pub read_on :
    (ℕ → EofReader → Bytes → ReadAll) → Bytes → Bytes × Option End × ℕ × EofReader → ReadAll
read_on later got (bs, none, n, r) = later n r (got ++ bs)
read_on later got (bs, some eof, n, r) = (got ++ bs, false, r)
read_on later got (bs, some broken, n, r) = (got ++ bs, true, r)

-- `io.ReadAll` of a limited reader, with buffers of some lengths.
unfoldable pub read_all : List ℕ → ℕ → EofReader → Bytes → ReadAll
unfolding limited_read read_on
read_all [] n r got = (got, false, r)
read_all (k ∷ ks) n r got = read_on (read_all ks) got (limited_read k n r)

abbrev pub prefix_limit : ℕ
prefix_limit = 65536

-- `prefixBody` over `io.MultiReader`; `finished` once no reader is left.
pub record PrefixBody : Type 0 where
  pub prefix : Bytes
  pub body : EofReader
  pub finished : Bool

unfoldable pub read_parts : ℕ → Bytes → EofReader → ReadBy PrefixBody
unfolding eof_read
read_parts k [] body =
    let (bs, e, r) = eof_read k body in
    (bs, e, record { prefix = []; body = r; finished = is_eof e })
read_parts k (c ∷ cs) body =
    (take k (c ∷ cs), none, record { prefix = drop k (c ∷ cs); body = body; finished = false })

unfoldable pub prefix_read : ℕ → PrefixBody → ReadBy PrefixBody
unfolding read_parts
prefix_read k b = if b.finished then ([], some eof, b) else read_parts k b.prefix b.body

-- The reads of the transport, and what they give.
unfoldable pub forward : List ℕ → PrefixBody → Bytes → Bytes × PrefixBody
unfolding prefix_read
forward [] b out = (out, b)
forward (k ∷ ks) b out = let (bs, e, c) = prefix_read k b in forward ks c (out ++ bs)

-- The body that the handler hands on after its own reads.
unfoldable pub wrap_body : List ℕ → Source → PrefixBody
unfolding read_all
wrap_body ks s =
    let (bytes, failed, r) = read_all ks prefix_limit (record { reader = s; eof = false }) [] in
    record { prefix = bytes; body = r; finished = false }
