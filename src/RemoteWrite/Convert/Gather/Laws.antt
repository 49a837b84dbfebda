-- ===== src/RemoteWrite/Convert/Gather/Laws.antt =====
-- What every series of a scrape has, and the bucket that no histogram lacks.
use ollama_exporter.Base.{
  if◌then◌else◌, Bool-cases, All, All-append, ℤ, Bytes, codes, ℕ, ◌≡◌, refl, inl, inr, Bool, true,
  false, Option, none, some, List, [], ◌∷◌, ◌++◌, Any,
}
use ollama_exporter.RemoteWrite.Convert.{Label, is_empty}
use ollama_exporter.RemoteWrite.Convert.Sorted.{IsAscending}
use ollama_exporter.RemoteWrite.Convert.Merge.{merge_labels-IsAscending}
use ollama_exporter.RemoteWrite.Convert.Gather.{
  Float, Sample, TimeSeries, Histogram, Summary, Metrics, counter, gauge, untyped, histogram,
  summary, Family, build_labelled, build_series, build_bucket_series, build_quantile_series,
  gather_values, gather_sum, gather_buckets, saw_inf, gather_histogram, gather_histograms,
  gather_quantiles, gather_summary, gather_summaries, gather_metrics, gather_families,
}

-- One sample, a number, stamped with the time of the scrape, under labels in order.
abbrev pub IsSendable : (fl : Float) → ℤ → TimeSeries fl → Type 0
IsSendable fl ts s =
    IsAscending s.labels
    × ((x : Sample fl) × (s.samples ≡ x ∷ []) × (fl.is_nan x.value ≡ false) × (x.timestamp ≡ ts))

Any-append_right {ℓ} : {A : Type ℓ} (P : A → Type 0) (xs ys : List A) → Any P ys → Any P (xs ++ ys)
Any-append_right P [] ys h = h
Any-append_right P (x ∷ xs) ys h = inr (Any-append_right P xs ys h)

Any-append_left {ℓ} : {A : Type ℓ} (P : A → Type 0) (xs ys : List A) → Any P xs → Any P (xs ++ ys)
Any-append_left P [] ys h = absurd h
Any-append_left P (x ∷ xs) ys (inl h) = inl h
Any-append_left P (x ∷ xs) ys (inr h) = inr (Any-append_left P xs ys h)

module _ (fl : Float) (counts : (n : ℕ) → fl.is_nan (fl.of_uint64 n) ≡ false) (ext : List Label)
    (ts : ℤ) where
  build_labelled-IsSendable :
      (name : Bytes) (lbls : List Label) (extra : Label) (v : fl.F)
      → fl.is_nan v ≡ false
      → IsSendable fl ts (build_labelled fl name lbls ext extra v ts)
  unfolding build_labelled
  build_labelled-IsSendable name lbls extra v h =
      (merge_labels-IsAscending name lbls ext extra, (_, refl, h, refl))

  gather_values-All :
      (name : Bytes) (ms : List (List Label × fl.F))
      → All (IsSendable fl ts) (gather_values fl ext ts name ms)
  unfolding gather_values build_series
  gather_values-All name [] = tt
  gather_values-All name ((lbls, v) ∷ ms) = elim (Bool-cases (fl.is_nan v)) [
    | inl e ↦ rw e (gather_values-All name ms)
    | inr e ↦ rw e (build_labelled-IsSendable name lbls _ v e, gather_values-All name ms)
  ]

  gather_sum-All :
      (name : Bytes) (lbls : List Label) (sum : fl.F)
      → All (IsSendable fl ts) (gather_sum fl ext ts name lbls sum)
  unfolding gather_sum build_series
  gather_sum-All name lbls sum = elim (Bool-cases (fl.is_nan sum)) [
    | inl e ↦ rw e tt
    | inr e ↦ rw e (build_labelled-IsSendable _ lbls _ sum e, tt)
  ]

  gather_buckets-All :
      (name : Bytes) (lbls : List Label) (bs : List (fl.F × ℕ))
      → All (IsSendable fl ts) (gather_buckets fl ext ts name lbls bs)
  unfolding gather_buckets build_bucket_series
  gather_buckets-All name lbls [] = tt
  gather_buckets-All name lbls ((bound, n) ∷ bs) =
      (build_labelled-IsSendable _ lbls _ _ (counts n), gather_buckets-All name lbls bs)

  gather_quantiles-All :
      (name : Bytes) (lbls : List Label) (qs : List (fl.F × fl.F))
      → All (IsSendable fl ts) (gather_quantiles fl ext ts name lbls qs)
  unfolding gather_quantiles build_quantile_series
  gather_quantiles-All name lbls [] = tt
  gather_quantiles-All name lbls ((q, v) ∷ qs) = elim (Bool-cases (fl.is_nan v)) [
    | inl e ↦ rw e (gather_quantiles-All name lbls qs)
    | inr e ↦ rw e (build_labelled-IsSendable name lbls _ v e, gather_quantiles-All name lbls qs)
  ]

  inf_bucket-All :
      (name : Bytes) (lbls : List Label) (n : ℕ) (seen : Bool)
      → All (IsSendable fl ts) (
          if seen
          then []
          else build_bucket_series fl name lbls ext (codes "+Inf") (fl.of_uint64 n) ts ∷ [])
  unfolding build_bucket_series
  inf_bucket-All name lbls n true = tt
  inf_bucket-All name lbls n false = (build_labelled-IsSendable name lbls _ _ (counts n), tt)

  gather_histogram-All :
      (name : Bytes) (lbls : List Label) (h : Histogram fl)
      → All (IsSendable fl ts) (gather_histogram fl ext ts name lbls h)
  unfolding gather_histogram build_series
  gather_histogram-All name lbls h = (
    build_labelled-IsSendable _ lbls _ _ (counts h.sample_count),
    All-append (IsSendable fl ts) _ _ (gather_sum-All name lbls h.sample_sum) (
        All-append (IsSendable fl ts) _ _ (gather_buckets-All name lbls h.bucket)
          (inf_bucket-All _ lbls h.sample_count (saw_inf fl h.bucket))),
  )

  gather_histograms-All :
      (name : Bytes) (ms : List (List Label × Option (Histogram fl)))
      → All (IsSendable fl ts) (gather_histograms fl ext ts name ms)
  unfolding gather_histograms
  gather_histograms-All name [] = tt
  gather_histograms-All name ((lbls, none) ∷ ms) = gather_histograms-All name ms
  gather_histograms-All name ((lbls, some h) ∷ ms) =
      All-append (IsSendable fl ts) _ _ (gather_histogram-All name lbls h)
        (gather_histograms-All name ms)

  gather_summaries-All :
      (name : Bytes) (ms : List (List Label × Option (Summary fl)))
      → All (IsSendable fl ts) (gather_summaries fl ext ts name ms)
  unfolding gather_summaries gather_summary build_series
  gather_summaries-All name [] = tt
  gather_summaries-All name ((lbls, none) ∷ ms) = gather_summaries-All name ms
  gather_summaries-All name ((lbls, some s) ∷ ms) = (
    build_labelled-IsSendable _ lbls _ _ (counts s.sample_count),
    All-append (IsSendable fl ts) _ _
        (All-append (IsSendable fl ts) _ _ (gather_sum-All name lbls s.sample_sum)
          (gather_quantiles-All name lbls s.quantile))
        (gather_summaries-All name ms),
  )

  gather_metrics-All :
      (name : Bytes) (m : Metrics fl) → All (IsSendable fl ts) (gather_metrics fl ext ts name m)
  unfolding gather_metrics
  gather_metrics-All name (counter ms) = gather_values-All name ms
  gather_metrics-All name (gauge ms) = gather_values-All name ms
  gather_metrics-All name (untyped ms) = gather_values-All name ms
  gather_metrics-All name (histogram ms) = gather_histograms-All name ms
  gather_metrics-All name (summary ms) = gather_summaries-All name ms

  -- If no count becomes a NaN as a float, then whatever the registry holds, each series of a
  -- scrape has labels in strictly ascending order and one sample, which is a number and has the
  -- time of the scrape.
  pub gather_families-IsSendable :
      (fs : List (Family fl)) → All (IsSendable fl ts) (gather_families fl ext ts fs)
  unfolding gather_families
  gather_families-IsSendable [] = tt
  gather_families-IsSendable (f ∷ fs) = elim (Bool-cases (is_empty f.name)) [
    | inl e ↦ rw e (gather_families-IsSendable fs)
    | inr e ↦ rw e (
        All-append (IsSendable fl ts) _ _ (gather_metrics-All f.name f.metrics)
          (gather_families-IsSendable fs))
  ]

module _ (fl : Float) (ext : List Label) (ts : ℤ) (name : Bytes) (lbls : List Label) where
  -- The series of the bucket without a bound.
  abbrev pub IsInfBucket : TimeSeries fl → Type 0
  IsInfBucket s =
      (n : ℕ) × (s
        ≡ build_bucket_series fl (name ++ codes "_bucket") lbls ext (codes "+Inf") (fl.of_uint64 n)
            ts)

  buckets_inf :
      (bs : List (fl.F × ℕ))
      → saw_inf fl bs ≡ true
      → Any IsInfBucket (gather_buckets fl ext ts name lbls bs)
  unfolding saw_inf gather_buckets
  buckets_inf [] h = cc
  buckets_inf ((bound, n) ∷ bs) h = elim (Bool-cases (fl.is_pos_inf bound)) [
    | inl e ↦ inl (n, rw e)
    | inr e ↦ inr (buckets_inf bs (rw e at h))
  ]

  -- Every histogram that is sent has a `+Inf` bucket, whether its metric lists one or not.
  pub gather_histogram_inf :
      (h : Histogram fl) → Any IsInfBucket (gather_histogram fl ext ts name lbls h)
  unfolding gather_histogram
  gather_histogram_inf h = inr (
      Any-append_right IsInfBucket (gather_sum fl ext ts name lbls h.sample_sum) _
        (elim (Bool-cases (saw_inf fl h.bucket)) [
          | inl e ↦ Any-append_left IsInfBucket _ _ (buckets_inf h.bucket e)
          | inr e ↦
              Any-append_right IsInfBucket (gather_buckets fl ext ts name lbls h.bucket) _
                (rw e (inl (h.sample_count, refl)))
        ]))
