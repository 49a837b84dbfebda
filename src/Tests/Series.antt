-- ===== src/Tests/Series.antt =====
-- internal/remotewrite/convert.go: a label set in which each kind of clash occurs, and a histogram.
use ollama_exporter.Base.{
  All, pos, Bytes, codes, ℕ, ◌+◌, ◌≡◌, refl, Bool, true, false, some, List, [], ◌∷◌, ◌++◌,
}
use ollama_exporter.RemoteWrite.Convert.{Label, name_label, merge_labels}
use ollama_exporter.RemoteWrite.Convert.Sorted.{find}
use ollama_exporter.RemoteWrite.Convert.Merge.{named, merge_labels_precedence}
use ollama_exporter.RemoteWrite.Convert.Gather.{
  Float, Histogram, Family, histogram, counter, gather_families,
}
use ollama_exporter.RemoteWrite.Convert.Gather.Laws.{IsSendable, gather_families-IsSendable}

abbrev label : Bytes → Bytes → Label
label n v = record { name = n; value = v }

abbrev metric_labels : List Label
metric_labels =
    label (codes "model") (codes "m") ∷ label [] (codes "x") ∷ label (codes "le") (codes "7") ∷ []

abbrev external_labels : List Label
external_labels = label (codes "host") (codes "h") ∷ label (codes "model") (codes "other") ∷ []

abbrev bound_label : Label
bound_label = label (codes "le") (codes "5")

merge_labels_precedence_example :
    find (codes "model") (merge_labels (codes "up") metric_labels external_labels bound_label)
    ≡ find (codes "model") (
        ((name_label (codes "up") ∷ named metric_labels) ++ named (bound_label ∷ []))
        ++ external_labels)
merge_labels_precedence_example =
    merge_labels_precedence (codes "up") metric_labels external_labels bound_label (codes "model")

-- Numbers with a NaN and an infinity beside them.
data Num : Type 0 where
  nan inf : Num
  num : ℕ → Num

abbrev num_is_nan : Num → Bool
num_is_nan nan = true
num_is_nan _ = false

abbrev num_is_inf : Num → Bool
num_is_inf inf = true
num_is_inf _ = false

abbrev num_format : Num → Bytes
num_format (num n) = (48 + n) ∷ []
num_format _ = codes "NaN"

abbrev numbers : Float
numbers = record {
  F = Num;
  is_nan = num_is_nan;
  is_pos_inf = num_is_inf;
  of_uint64 = num;
  format = num_format;
}

abbrev latencies : Histogram numbers
latencies = record { sample_count = 4; sample_sum = nan; bucket = (num 1, 2) ∷ (num 5, 3) ∷ [] }

abbrev families : List (Family numbers)
families =
    record { name = codes "lat"; metrics = histogram ((metric_labels, some latencies) ∷ []) }
    ∷ record { name = codes "up"; metrics = counter (([], nan) ∷ ([], num 3) ∷ []) }
    ∷ []

gather_families-IsSendable_example :
    All (IsSendable numbers (pos 9)) (gather_families numbers external_labels (pos 9) families)
gather_families-IsSendable_example =
    gather_families-IsSendable numbers (λ n. refl) external_labels (pos 9) families
