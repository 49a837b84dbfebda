-- ===== src/Collector/ModelCache/Laws.antt =====
-- What the cache promises to its callers.
use ollama_exporter.Base.{
  Bytes, equal, equal_self, ℕ, ◌≡◌, refl, false, ◌||◌, Option, none, some, [], ◌∷◌, ◌++◌, arith,
}
use ollama_exporter.Go.Strings.{cut_first, contains, after_last}
use ollama_exporter.Go.Dict.{lookup, lookup-insert}
use ollama_exporter.Collector.ModelCache.{
  Cache, Details, strip_version, quant_of_tag, parse_model_name, fetch, fetch_and_cache, get,
}

-- `Get` answers what is cached and what `/api/show` gave where nothing is; from then on it answers
-- the same, whatever `/api/show` would say, and the entry of every other model is as it was.
pub get_stable :
    (show later : Bytes → Option Details) (model other : Bytes) (cache : Cache)
    → let (info, cache') = get show model cache in
      (lookup model cache' ≡ some info)
      × (get later model cache' ≡ (info, cache'))
      × (lookup model cache ≡ none → info ≡ fetch show model)
      × (equal model other ≡ false → lookup other cache' ≡ lookup other cache)
unfolding get fetch_and_cache
get_stable show later model other cache = ground (
  arith,
  equal_self model,
  lookup-insert model model (fetch show model) cache,
  lookup-insert model other (fetch show model) cache,
)

cut_first_self :
    (sep : ℕ) (a b : Bytes) → contains sep a ≡ false → cut_first sep (a ++ sep ∷ b) ≡ some (a, b)
unfolding cut_first contains
cut_first_self sep [] b h = ground arith
cut_first_self sep (c ∷ cs) b h = ground (arith, cut_first_self sep cs b)

contains-append :
    (sep : ℕ) (a b : Bytes) → contains sep (a ++ b) ≡ (contains sep a || contains sep b)
unfolding contains
contains-append sep [] b = refl
contains-append sep (c ∷ cs) b = ground (arith, contains-append sep cs b)

after_last-none : (sep : ℕ) (s : Bytes) → contains sep s ≡ false → after_last sep s ≡ none
unfolding after_last contains
after_last-none sep [] h = refl
after_last-none sep (c ∷ cs) h = ground (arith, after_last-none sep cs)

after_last_self :
    (sep : ℕ) (a b : Bytes) → contains sep b ≡ false → after_last sep (a ++ sep ∷ b) ≡ some b
unfolding after_last
after_last_self sep [] b h = ground (arith, after_last-none sep b h)
after_last_self sep (c ∷ cs) b h = rw (after_last_self sep cs b h) refl

-- A name `family.version:size-quant` is taken apart into its family and its quantisation, where
-- the family is not empty, it has no `.`, neither it nor the version has a `:`, and the
-- quantisation has no `-`.
pub parse_model_name-print :
    (first : ℕ) (family version size quant : Bytes)
    → contains b'.' (first ∷ family) ≡ false
    → contains b':' (first ∷ family) ≡ false
    → contains b':' version ≡ false
    → contains b'-' quant ≡ false
    → parse_model_name (((first ∷ family) ++ b'.' ∷ version) ++ b':' ∷ (size ++ b'-' ∷ quant))
      ≡ (first ∷ family, quant)
unfolding parse_model_name strip_version quant_of_tag contains
parse_model_name-print first family version size quant d c v q =
    let no_colon : contains b':' ((first ∷ family) ++ b'.' ∷ version) ≡ false =
      ground (arith, contains-append b':' (first ∷ family) (b'.' ∷ version)) in
    ground (
      arith,
      cut_first_self b':' ((first ∷ family) ++ b'.' ∷ version) (size ++ b'-' ∷ quant) no_colon,
      cut_first_self b'.' (first ∷ family) version d,
      after_last_self b'-' size quant q,
    )
