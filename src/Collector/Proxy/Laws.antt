-- ===== src/Collector/Proxy/Laws.antt =====
-- What is recorded of a response, on each path through the callbacks.
use ollama_exporter.Base.{
  Bool-cases, All, ℤ, pos, Bytes, ℕ, ◌≡◌, refl, ◌≢◌, ◌↔◌, inl, inr, Bool, true, false, Option, none,
  some, List, [], ◌∷◌, ◌++◌, arith, Any,
}
use ollama_exporter.Collector.JsonFields.{Json, Fields, Reason, no_reason, usage_absent}
use ollama_exporter.Collector.ResponseBody.{Outcome, skipped, succeeded, failed}
use ollama_exporter.Collector.Proxy.Counted.{
  as_int, input_fields, output_fields, HasSome, IsMalformed, FirstCount, Checked,
  check_counts-Checked, first_count-FirstCount, IsModel, usage_model-IsModel,
}
use ollama_exporter.Collector.Proxy.Measured.{
  Measure, IsMeasured, measured, IsSafe, requests_of, generate_requests, generate_events-IsSafe,
}
use ollama_exporter.Collector.ModelCache.{ModelInfo, Cache, Details, get}
use ollama_exporter.Collector.Proxy.{
  ProxyEvent, requests_total, input_tokens, output_tokens, check_counts, first_count, input_keys,
  output_keys, usage_events, usage_model, record_usage, GenerateResponse, record_generate_metrics,
  record_native, record_decoded, observed_as, Recorded,
}

-- A count, if there is one, as an update of a histogram.
abbrev pub shown : (ℤ → ProxyEvent) → Option ℕ → List ProxyEvent
shown event none = []
shown event (some n) = event (pos n) ∷ []

shown-as_int :
    (event : ℤ → ProxyEvent) (o : Option ℕ) → observed_as event (as_int o) ≡ shown event o
shown-as_int event none = refl
shown-as_int event (some n) = refl

module _ (json : Json) (int64_of : Bytes → Option ℤ) (show : Bytes → Option Details)
    (requested path : Bytes) (f : Fields) (cache : Cache) where
  -- What is recorded of a response whose fields are counts: one request of its model, then its
  -- input and its output count.
  abbrev pub IsCounted : Recorded → Type 0
  IsCounted r =
      (model : Bytes) × (input output : Option ℕ) × IsModel json requested f model
      × FirstCount int64_of f input_fields input
      × FirstCount int64_of f output_fields output
      × (r.events
          ≡ requests_total model (get show model cache).0 path
            ∷ (shown input_tokens input ++ shown output_tokens output))
      × (r.cache ≡ (get show model cache).1)
      × ((r.outcome ≡ succeeded) ↔ Any (HasSome int64_of f) (input_fields ++ output_fields))

  usage_events_lem :
      (model : Bytes) (info : ModelInfo) (i o : Option ℕ)
      → first_count int64_of f input_keys ≡ as_int i
      → first_count int64_of f output_keys ≡ as_int o
      → usage_events int64_of model info path f
        ≡ requests_total model info path ∷ (shown input_tokens i ++ shown output_tokens o)
  unfolding usage_events
  usage_events_lem model info i o p q =
      rw (p, q, shown-as_int input_tokens i, shown-as_int output_tokens o) refl

  recorded-IsCounted :
      (outcome : Outcome) (why : Reason)
      → ((outcome ≡ succeeded) ↔ Any (HasSome int64_of f) (input_fields ++ output_fields))
      → let model = usage_model json requested f in
        let (info, cache') = get show model cache in
        let events = usage_events int64_of model info path f in
        IsCounted (record { outcome = outcome; reason = why; cache = cache'; events = events })
  recorded-IsCounted outcome why s =
      let model = usage_model json requested f in
      let (i, first_i, p) = first_count-FirstCount int64_of f input_fields in
      let (o, first_o, q) = first_count-FirstCount int64_of f output_fields in
      (
        model,
        i,
        o,
        usage_model-IsModel json requested f,
        first_i,
        first_o,
        usage_events_lem model (get show model cache).0 i o p q,
        refl,
        s,
      )

  -- A compatibility response is a failure exactly if one of the six usage fields is there, is not
  -- null and is no count, and then nothing is recorded and the cache is as it was. Otherwise one
  -- request is counted, under the model named in the message, else beside it, else requested; then
  -- the first input count is observed as an input, and the first output count as an output; and it is
  -- a success exactly if one of the six fields has a count.
  pub record_usage_result :
      let r = record_usage json int64_of show requested path f cache in
      ((r.outcome ≡ failed) ↔ Any (IsMalformed int64_of f) (input_fields ++ output_fields))
      × (r.outcome ≡ failed → (r.events ≡ []) × (r.cache ≡ cache))
      × (r.outcome ≢ failed → IsCounted r)
  unfolding record_usage
  record_usage_result =
      by_check (check_counts int64_of f (input_keys ++ output_keys) false)
        (check_counts-Checked int64_of f (input_fields ++ output_fields) false) refl
    where
      by_check :
          (c : Option Bool)
          → Checked int64_of f (input_fields ++ output_fields) false c
          → check_counts int64_of f (input_keys ++ output_keys) false ≡ c
          → let r = record_usage json int64_of show requested path f cache in
            ((r.outcome ≡ failed) ↔ Any (IsMalformed int64_of f) (input_fields ++ output_fields))
            × (r.outcome ≡ failed → (r.events ≡ []) × (r.cache ≡ cache))
            × (r.outcome ≢ failed → IsCounted r)
      by_check none h e =
          rw (e, record_usage)
            (((λ q. h), (λ q. refl)), (λ q. (refl, refl)), (λ q. absurd (q refl)))
      by_check (some true) h e =
          rw (e, record_usage)
            (
              ((λ q. cc), (λ q. absurd (h.0 q))),
              (λ q. cc),
              (λ q.
                  recorded-IsCounted succeeded no_reason
                    ((λ t. elim (h.1.0 refl) [ inl x ↦ cc | inr y ↦ y ]), (λ t. refl))),
            )
      by_check (some false) h e =
          rw (e, record_usage)
            (
              ((λ q. cc), (λ q. absurd (h.0 q))),
              (λ q. cc),
              (λ q.
                  recorded-IsCounted skipped usage_absent
                    ((λ t. cc), (λ t. ground (arith, h.1.1 (inr t))))),
            )

-- What is recorded of a final chunk: one request of its model, and each metric as it is due.
abbrev pub IsRecorded :
    (Bytes → Option Details) → GenerateResponse → Bytes → Cache → Recorded → Type 0
IsRecorded show gen path cache r =
    (requests_of r.events ≡ (gen.model, (get show gen.model cache).0, path) ∷ [])
    × ((m : Measure) → IsMeasured gen r.events m)
    × All IsSafe r.events
    × (r.cache ≡ (get show gen.model cache).1)

record_decoded_result :
    (show : Bytes → Option Details) (path : Bytes) (cache : Cache) (o : Option GenerateResponse)
    → let r = record_decoded show path cache o in
      ((r.outcome ≡ failed) ↔ (o ≡ none))
      × ((r.outcome ≡ succeeded) ↔ ((gen : GenerateResponse) × (o ≡ some gen) × (gen.done ≡ true)))
      × (r.outcome ≡ succeeded
          → (gen : GenerateResponse) × (o ≡ some gen) × IsRecorded show gen path cache r)
      × (r.outcome ≢ succeeded → (r.events ≡ []) × (r.cache ≡ cache))
unfolding record_decoded record_generate_metrics
record_decoded_result show path cache none =
    (((λ h. refl), (λ h. refl)), ((λ h. cc), (λ h. cc)), (λ h. cc), (λ h. (refl, refl)))
record_decoded_result show path cache (some gen) = elim (Bool-cases gen.done) [
  | inl e ↦
      let final = record gen { done = true } in
      rw e (
        ((λ h. cc), (λ h. cc)),
        ((λ h. (final, refl, refl)), (λ h. refl)),
        (λ h. (
          final,
          refl,
          (
            generate_requests show final path cache,
            measured show final path cache,
            generate_events-IsSafe show final path cache,
            refl,
          ),
        )),
        (λ h. absurd (h refl)),
      )
  | inr e ↦
      rw e
        (((λ h. cc), (λ h. cc)), ((λ h. cc), (λ h. ground arith)), (λ h. cc), (λ h. (refl, refl)))
]

-- A native response is a failure exactly if its fields do not decode, and a success exactly if they
-- decode to a final chunk. Then one request is
-- counted, of the chunk's model on that path, and each of the metrics of a chunk, and no other, is
-- updated once, with the numbers of the chunk, if those are positive, and is left alone if not;
-- so no counter goes down and no divisor is zero. If it is no success, nothing is recorded and the
-- cache is as it was.
pub record_native_result :
    (generate_of : Fields → Option GenerateResponse) (show : Bytes → Option Details) (path : Bytes)
    (f : Fields) (cache : Cache)
    → let r = record_native generate_of show path f cache in
      ((r.outcome ≡ failed) ↔ (generate_of f ≡ none))
      × ((r.outcome ≡ succeeded)
          ↔ ((gen : GenerateResponse) × (generate_of f ≡ some gen) × (gen.done ≡ true)))
      × (r.outcome ≡ succeeded
          → (gen : GenerateResponse) × (generate_of f ≡ some gen)
            × IsRecorded show gen path cache r)
      × (r.outcome ≢ succeeded → (r.events ≡ []) × (r.cache ≡ cache))
unfolding record_native
record_native_result generate_of show path f cache =
    record_decoded_result show path cache (generate_of f)
