-- ===== src/RemoteWrite/Convert.antt =====
-- internal/remotewrite/convert.go: the label sets and the series of a scrape. `sort.Slice` is
-- an insertion sort, which agrees with any sort on the distinct names that it is given.
pub mod Sorted
pub mod Merge
pub mod Gather
use ollama_exporter.Base.{
  if◌then◌else◌, Bytes, codes, equal, less, Bool, true, false, ◌||◌, List, [], ◌∷◌, ◌++◌, map,
}

pub record Label : Type 0 where
  pub name : Bytes
  pub value : Bytes

unfoldable pub insert_sorted : Label → List Label → List Label
insert_sorted l [] = l ∷ []
insert_sorted l (m ∷ ms) = if less l.name m.name then l ∷ m ∷ ms else m ∷ insert_sorted l ms

unfoldable pub sort_labels : List Label → List Label
unfolding insert_sorted
sort_labels [] = []
sort_labels (l ∷ ls) = insert_sorted l (sort_labels ls)

-- `have`: the names that are in `out`.
unfoldable pub has_name : Bytes → List Label → Bool
has_name n [] = false
has_name n (l ∷ ls) = equal l.name n || has_name n ls

-- The test and the append that all of the loops share.
unfoldable pub add_label : Label → List Label → List Label
unfolding has_name
add_label l out = if has_name l.name out then out else out ++ l ∷ []

abbrev pub is_empty : Bytes → Bool
is_empty [] = true
is_empty (_ ∷ _) = false

-- The loop over the labels of the metric, which skips empty names.
unfoldable pub add_metric_labels : List Label → List Label → List Label
add_metric_labels [] out = out
add_metric_labels (l ∷ ls) out =
    add_metric_labels ls (if is_empty l.name then out else add_label l out)

-- The loop over the external labels.
unfoldable pub add_external : List Label → List Label → List Label
add_external [] out = out
add_external (l ∷ ls) out = add_external ls (add_label l out)

unfoldable pub add_extra : Label → List Label → List Label
add_extra l out = if is_empty l.name then out else add_label l out

unfoldable pub name_label : Bytes → Label
name_label name = record { name = codes "__name__"; value = name }

-- The set before it is sorted.
unfoldable pub collect_labels : Bytes → List Label → List Label → Label → List Label
unfolding name_label
collect_labels name metric ext extra =
    add_external ext (add_extra extra (add_metric_labels metric (name_label name ∷ [])))

unfoldable pub merge_labels : Bytes → List Label → List Label → Label → List Label
merge_labels name metric ext extra = sort_labels (collect_labels name metric ext extra)

-- `NewLabels`: the entries of a map, in any order.
unfoldable pub new_labels : List (Bytes × Bytes) → List Label
unfolding sort_labels
new_labels m = sort_labels (map (λ e. record { name = e.0; value = e.1 }) m)
