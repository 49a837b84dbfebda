-- ===== src/RemoteWrite/Convert/Gather.antt =====
-- `Gather` and the three `build…Series` of convert.go. float64 is a parameter with the few
-- operations that the code uses. A nil histogram or summary is `none`.
pub mod Laws
use ollama_exporter.Base.{
  if◌then◌else◌, ℤ, Bytes, codes, ℕ, Bool, false, ◌||◌, Option, none, some, List, [], ◌∷◌, ◌++◌,
}
use ollama_exporter.RemoteWrite.Convert.{Label, merge_labels, is_empty}

pub record Float : Type 1 where
  pub F : Type 0
  pub is_nan : F → Bool
  pub is_pos_inf : F → Bool
  pub of_uint64 : ℕ → F
  pub format : F → Bytes

module _ (fl : Float) where
  open fl use {F, is_nan, is_pos_inf, of_uint64, format}

  pub record Sample : Type 0 where
    pub value : F
    pub timestamp : ℤ

  pub record TimeSeries : Type 0 where
    pub labels : List Label
    pub samples : List Sample

  pub record Histogram : Type 0 where
    pub sample_count : ℕ
    pub sample_sum : F
    pub bucket : List (F × ℕ)

  pub record Summary : Type 0 where
    pub sample_count : ℕ
    pub sample_sum : F
    pub quantile : List (F × F)

  pub data Metrics : Type 0 where
    counter gauge untyped : List (List Label × F) → Metrics
    histogram : List (List Label × Option Histogram) → Metrics
    summary : List (List Label × Option Summary) → Metrics

  pub record Family : Type 0 where
    pub name : Bytes
    pub metrics : Metrics

  abbrev pub no_label : Label
  no_label = record { name = []; value = [] }

  unfoldable pub build_labelled : Bytes → List Label → List Label → Label → F → ℤ → TimeSeries
  build_labelled name metric ext extra v ts = record {
    labels = merge_labels name metric ext extra;
    samples = record { value = v; timestamp = ts } ∷ [];
  }

  unfoldable pub build_series : Bytes → List Label → List Label → F → ℤ → TimeSeries
  build_series name metric ext v ts = build_labelled name metric ext no_label v ts

  unfoldable pub build_bucket_series : Bytes → List Label → List Label → Bytes → F → ℤ → TimeSeries
  build_bucket_series name metric ext le v ts =
      build_labelled name metric ext (record { name = codes "le"; value = le }) v ts

  unfoldable pub build_quantile_series :
      Bytes → List Label → List Label → Bytes → F → ℤ → TimeSeries
  build_quantile_series name metric ext q v ts =
      build_labelled name metric ext (record { name = codes "quantile"; value = q }) v ts

  -- `le`.
  unfoldable pub bucket_label : F → Bytes
  bucket_label bound = if is_pos_inf bound then codes "+Inf" else format bound

  -- `sawInf` behind the loop over the buckets.
  unfoldable pub saw_inf : List (F × ℕ) → Bool
  saw_inf [] = false
  saw_inf ((bound, count) ∷ bs) = is_pos_inf bound || saw_inf bs

  module _ (ext : List Label) (ts : ℤ) where
    -- Counters, gauges and untyped values.
    unfoldable pub gather_values : Bytes → List (List Label × F) → List TimeSeries
    gather_values name [] = []
    gather_values name ((lbls, v) ∷ ms) =
        if is_nan v
        then gather_values name ms
        else build_series name lbls ext v ts ∷ gather_values name ms

    -- `name_sum`, unless the sum is not a number.
    unfoldable pub gather_sum : Bytes → List Label → F → List TimeSeries
    gather_sum name lbls sum =
        if is_nan sum then [] else build_series (name ++ codes "_sum") lbls ext sum ts ∷ []

    unfoldable pub gather_buckets : Bytes → List Label → List (F × ℕ) → List TimeSeries
    unfolding bucket_label
    gather_buckets name lbls [] = []
    gather_buckets name lbls ((bound, count) ∷ bs) =
        build_bucket_series (name ++ codes "_bucket") lbls ext (bucket_label bound)
          (of_uint64 count) ts
        ∷ gather_buckets name lbls bs

    unfoldable pub gather_histogram : Bytes → List Label → Histogram → List TimeSeries
    unfolding gather_sum
    gather_histogram name lbls h =
        build_series (name ++ codes "_count") lbls ext (of_uint64 h.sample_count) ts
        ∷ (gather_sum name lbls h.sample_sum
            ++ (gather_buckets name lbls h.bucket
                ++ (if saw_inf h.bucket
                    then []
                    else build_bucket_series (name ++ codes "_bucket") lbls ext (codes "+Inf")
                        (of_uint64 h.sample_count) ts
                      ∷ [])))

    unfoldable pub gather_histograms :
        Bytes → List (List Label × Option Histogram) → List TimeSeries
    gather_histograms name [] = []
    gather_histograms name ((lbls, none) ∷ ms) = gather_histograms name ms
    gather_histograms name ((lbls, some h) ∷ ms) =
        gather_histogram name lbls h ++ gather_histograms name ms

    unfoldable pub gather_quantiles : Bytes → List Label → List (F × F) → List TimeSeries
    gather_quantiles name lbls [] = []
    gather_quantiles name lbls ((q, v) ∷ qs) =
        if is_nan v
        then gather_quantiles name lbls qs
        else build_quantile_series name lbls ext (format q) v ts ∷ gather_quantiles name lbls qs

    unfoldable pub gather_summary : Bytes → List Label → Summary → List TimeSeries
    unfolding gather_sum
    gather_summary name lbls s =
        build_series (name ++ codes "_count") lbls ext (of_uint64 s.sample_count) ts
        ∷ (gather_sum name lbls s.sample_sum ++ gather_quantiles name lbls s.quantile)

    unfoldable pub gather_summaries : Bytes → List (List Label × Option Summary) → List TimeSeries
    gather_summaries name [] = []
    gather_summaries name ((lbls, none) ∷ ms) = gather_summaries name ms
    gather_summaries name ((lbls, some s) ∷ ms) =
        gather_summary name lbls s ++ gather_summaries name ms

    unfoldable pub gather_metrics : Bytes → Metrics → List TimeSeries
    gather_metrics name (counter ms) = gather_values name ms
    gather_metrics name (gauge ms) = gather_values name ms
    gather_metrics name (untyped ms) = gather_values name ms
    gather_metrics name (histogram ms) = gather_histograms name ms
    gather_metrics name (summary ms) = gather_summaries name ms

    -- The loop over the families; a family without a name is skipped.
    unfoldable pub gather_families : List Family → List TimeSeries
    gather_families [] = []
    gather_families (f ∷ fs) =
        if is_empty f.name
        then gather_families fs
        else gather_metrics f.name f.metrics ++ gather_families fs

  -- `none` is an error of the registry's own `Gather`.
  unfoldable pub gather : Option (List Family) → List Label → ℤ → Option (List TimeSeries)
  gather none ext ts = none
  gather (some families) ext ts = some (gather_families ext ts families)
