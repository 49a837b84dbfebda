-- ===== src/Collector/ModelCache/History.antt =====
-- internal/collector/modelcache.go: the cache against the history of its calls.
use ollama_exporter.Base.{
  Bytes, equal, equal_iff, equal_self, ◌≡◌, ◌≢◌, ◌↔◌, refl, Bool, true, false, Bool-cases, inl, inr,
  Option, none, some, List, [], ◌∷◌, arith, ◌∙◌, subst, sym,
}
use ollama_exporter.Go.Dict.{lookup, lookup-insert, lookup-retain}
use ollama_exporter.Collector.ModelCache.{
  Cache, ModelInfo, Details, fetch, fetch_and_cache, get, prune,
}

-- A `Get` with no other call between its two locks, or the second half of one whose look-up missed
-- at some time before.
pub data Way : Type 0 where
  at_once second_half : Way

unfoldable pub ask : Way → (Bytes → Option Details) → Bytes → Cache → ModelInfo × Cache
ask at_once show model cache = get show model cache
ask second_half show model cache = fetch_and_cache show model cache

pub data Call : Type 0 where
  asks : Way → (Bytes → Option Details) → Bytes → Call
  prunes : (Bytes → Bool) → Call

-- The cache after some calls, the latest of them first.
unfoldable pub after : List Call → Cache
after [] = []
after (asks way show model ∷ calls) = (ask way show model (after calls)).1
after (prunes present ∷ calls) = prune present (after calls)

-- What a history has left of a model: what was fetched at the first call for it since it was last
-- pruned.
pub data Held (model : Bytes) : List Call → Option ModelInfo → Type 0 where
  unasked : Held model [] none
  first_asked :
      {way : Way} {show : Bytes → Option Details} {m : Bytes} {calls : List Call}
      → m ≡ model
      → Held model calls none
      → Held model (asks way show m ∷ calls) (some (fetch show model))
  asked_again :
      {way : Way} {show : Bytes → Option Details} {m : Bytes} {calls : List Call} {info : ModelInfo}
      → m ≡ model
      → Held model calls (some info)
      → Held model (asks way show m ∷ calls) (some info)
  asked_other :
      {way : Way} {show : Bytes → Option Details} {m : Bytes} {calls : List Call}
      {o : Option ModelInfo}
      → m ≢ model
      → Held model calls o
      → Held model (asks way show m ∷ calls) o
  pruned :
      {present : Bytes → Bool} {calls : List Call}
      → present model ≡ false
      → Held model (prunes present ∷ calls) none
  spared :
      {present : Bytes → Bool} {calls : List Call} {o : Option ModelInfo}
      → present model ≡ true
      → Held model calls o
      → Held model (prunes present ∷ calls) o

-- What a call answers and leaves, by what is cached of the model.
ask-none :
    (way : Way) (show : Bytes → Option Details) (m model : Bytes) (cache : Cache)
    → m ≡ model
    → lookup model cache ≡ none
    → ((ask way show m cache).0 ≡ fetch show model)
      × (lookup model (ask way show m cache).1 ≡ some (fetch show model))
unfolding ask get fetch_and_cache
ask-none at_once show m model cache e h =
    rw e (ground (arith, lookup-insert model model (fetch show model) cache, equal_self model))
ask-none second_half show m model cache e h =
    rw e (ground (arith, lookup-insert model model (fetch show model) cache, equal_self model))

ask-some :
    (way : Way) (show : Bytes → Option Details) (m model : Bytes) (cache : Cache) (info : ModelInfo)
    → m ≡ model
    → lookup model cache ≡ some info
    → ((ask way show m cache).0 ≡ info) × (lookup model (ask way show m cache).1 ≡ some info)
unfolding ask get fetch_and_cache
ask-some at_once show m model cache info e h = ground (arith, e)
ask-some second_half show m model cache info e h = ground (arith, e)

ask_other :
    (way : Way) (show : Bytes → Option Details) (m model : Bytes) (cache : Cache)
    → m ≢ model
    → lookup model (ask way show m cache).1 ≡ lookup model cache
unfolding ask get fetch_and_cache
ask_other at_once show m model cache n =
    ground (arith, lookup-insert m model (fetch show m) cache, equal_iff m model)
ask_other second_half show m model cache n =
    ground (arith, lookup-insert m model (fetch show m) cache, equal_iff m model)

-- The cache holds what its history has left.
Held-lookup :
    {model : Bytes} {calls : List Call} {o : Option ModelInfo}
    → Held model calls o
    → lookup model (after calls) ≡ o
unfolding after prune
Held-lookup unasked = unfold lookup in refl
Held-lookup {model} (first_asked {way = way} {show = show} {m = m} {calls = calls} e h) =
    (ask-none way show m model (after calls) e (Held-lookup h)).1
Held-lookup {model}
      (asked_again {way = way} {show = show} {m = m} {calls = calls} {info = info} e h) =
    (ask-some way show m model (after calls) info e (Held-lookup h)).1
Held-lookup {model} (asked_other {way = way} {show = show} {m = m} {calls = calls} n h) =
    ask_other way show m model (after calls) n ∙ Held-lookup h
Held-lookup {model} (pruned {present = present} {calls = calls} e) =
    lookup-retain present model (after calls) ∙ rw e refl
Held-lookup {model} (spared {present = present} {calls = calls} e h) =
    lookup-retain present model (after calls) ∙ rw e (Held-lookup h)

-- Every history has left something, or nothing, of a model.
some_Held : (model : Bytes) (calls : List Call) → (o : Option ModelInfo) × Held model calls o
some_Held model [] = (none, unasked)
some_Held model (asks way show m ∷ calls) =
    let (o, h) = some_Held model calls in
    elim (Bool-cases (equal m model)) [
      | inl y ↦ again o h ((equal_iff m model).0 y)
      | inr n ↦ (o, asked_other (λ e. cc (n, (equal_iff m model).1 e)) h)
    ]
  where
    again :
        (o : Option ModelInfo)
        → Held model calls o
        → m ≡ model
        → (p : Option ModelInfo) × Held model (asks way show m ∷ calls) p
    again none h e = (some (fetch show model), first_asked e h)
    again (some info) h e = (some info, asked_again e h)
some_Held model (prunes present ∷ calls) =
    let (o, h) = some_Held model calls in
    elim (Bool-cases (present model)) [ inl y ↦ (o, spared y h) | inr n ↦ (none, pruned n) ]

-- After any calls in any order, of a `Get` in one piece, of second halves of `Get`s that missed
-- earlier, and of prunes, a call for a model answers what was fetched of it, from `/api/show` or from
-- its name where that fails, at the first call for it since a prune last dropped it, the call itself
-- included; no call for another model has a part in it.
pub ask-Held :
    (calls : List Call) (way : Way) (show : Bytes → Option Details) (model : Bytes)
    (info : ModelInfo)
    → ((ask way show model (after calls)).0 ≡ info)
      ↔ Held model (asks way show model ∷ calls) (some info)
unfolding after
ask-Held calls way show model info = let (o, h) = some_Held model calls in by_held o h
  where
    cache : Cache
    cache = after calls

    by_held :
        (o : Option ModelInfo)
        → Held model calls o
        → ((ask way show model cache).0 ≡ info)
          ↔ Held model (asks way show model ∷ calls) (some info)
    by_held none h =
        let q = ask-none way show model model cache refl (Held-lookup h) in
        (
          λ e.
              subst (λ i. Held model (asks way show model ∷ calls) (some i)) (sym q.0 ∙ e)
                (first_asked refl h),
          λ later. cc (q.0, q.1, Held-lookup later),
        )
    by_held (some found) h =
        let q = ask-some way show model model cache found refl (Held-lookup h) in
        (
          λ e.
              subst (λ i. Held model (asks way show model ∷ calls) (some i)) (sym q.0 ∙ e)
                (asked_again refl h),
          λ later. cc (q.0, q.1, Held-lookup later),
        )
