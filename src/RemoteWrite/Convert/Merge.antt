-- ===== src/RemoteWrite/Convert/Merge.antt =====
-- What a receiver may rely on in a label set: names strictly ascending, and where each value is from.
use ollama_exporter.Base.{
  if◌then◌else◌, Bool-cases, keep_if, Bytes, equal, equal_iff, equal_comm, ◌≡◌, refl, sym, ap, ◌∙◌,
  subst, ◌≢◌, ◌⊎◌, inl, inr, true, false, not, ◌||◌, Option, none, some, List, [], ◌∷◌, ◌++◌,
  append-nil, append_assoc, arith,
}
use ollama_exporter.RemoteWrite.Convert.Sorted.{
  IsAscending, IsDistinct, find, sort_labels-IsAscending, find-sort,
}
use ollama_exporter.RemoteWrite.Convert.{
  Label, has_name, add_label, is_empty, add_metric_labels, add_external, add_extra, name_label,
  collect_labels, merge_labels,
}

-- Collecting.
abbrev or_else : Option Bytes → Option Bytes → Option Bytes
or_else none o = o
or_else (some v) o = some v

find-append : (n : Bytes) (xs ys : List Label) → find n (xs ++ ys) ≡ or_else (find n xs) (find n ys)
unfolding find
find-append n [] ys = refl
find-append n (l ∷ xs) ys = ground (arith, find-append n xs ys)

has_name-append :
    (n : Bytes) (xs ys : List Label) → has_name n (xs ++ ys) ≡ (has_name n xs || has_name n ys)
unfolding has_name
has_name-append n [] ys = refl
has_name-append n (l ∷ xs) ys = ground (arith, has_name-append n xs ys)

IsDistinct-concat :
    (xs : List Label) (l : Label)
    → IsDistinct xs
    → has_name l.name xs ≡ false
    → IsDistinct (xs ++ l ∷ [])
unfolding has_name
IsDistinct-concat [] l d h = (refl, tt)
IsDistinct-concat (x ∷ xs) l (p, d) h = (
  has_name-append x.name xs (l ∷ []) ∙ ground (arith, equal_comm x.name l.name),
  IsDistinct-concat xs l d (ground arith),
)

add_label-IsDistinct :
    (l : Label) (out : List Label) → IsDistinct out → IsDistinct (add_label l out)
unfolding add_label
add_label-IsDistinct l out d = elim (Bool-cases (has_name l.name out)) [
  | inl e ↦ rw e d
  | inr e ↦ rw e (IsDistinct-concat out l d e)
]

find_present : (n : Bytes) (ls : List Label) → has_name n ls ≡ true → find n ls ≢ none
unfolding find has_name
find_present n [] h = cc
find_present n (l ∷ ls) h = ground (arith, find_present n ls)

find_one :
    (n : Bytes) (l : Label) → find n (l ∷ []) ≡ (if equal l.name n then some l.value else none)
unfolding find
find_one n l = refl

-- A label whose name is there already changes no look-up.
find-add_label :
    (n : Bytes) (l : Label) (out : List Label) → find n (add_label l out) ≡ find n (out ++ l ∷ [])
unfolding add_label
find-add_label n l out = elim (Bool-cases (has_name l.name out)) [
  | inl e ↦ rw (e, find-append) (covered (Bool-cases (equal l.name n)) e)
  | inr e ↦ rw e
]
  where
    covered :
        (equal l.name n ≡ true) ⊎ (equal l.name n ≡ false)
        → has_name l.name out ≡ true
        → find n out ≡ or_else (find n out) (find n (l ∷ []))
    covered (inl q) e =
        let present = subst (λ k. has_name k out ≡ true) ((equal_iff l.name n).0 q) e in
        ground (arith, find_present n out present)
    covered (inr q) e = rw (find_one n l, q) (ground arith)

find-add_more :
    (n : Bytes) (l : Label) (out ls : List Label)
    → find n (add_label l out ++ ls) ≡ find n (out ++ l ∷ ls)
find-add_more n l out ls =
    find-append n (add_label l out) ls
    ∙ ap (λ o. or_else o (find n ls)) (find-add_label n l out)
    ∙ sym (find-append n (out ++ l ∷ []) ls)
    ∙ ap (find n) (append_assoc out (l ∷ []) ls)

find-add_external :
    (n : Bytes) (ls out : List Label) → find n (add_external ls out) ≡ find n (out ++ ls)
unfolding add_external
find-add_external n [] out = ap (find n) (sym (append-nil out))
find-add_external n (l ∷ ls) out =
    find-add_external n ls (add_label l out) ∙ find-add_more n l out ls

add_external-IsDistinct : (ls out : List Label) → IsDistinct out → IsDistinct (add_external ls out)
unfolding add_external
add_external-IsDistinct [] out d = d
add_external-IsDistinct (l ∷ ls) out d =
    add_external-IsDistinct ls (add_label l out) (add_label-IsDistinct l out d)

abbrev pub named : List Label → List Label
named = keep_if (λ l. not (is_empty l.name))

find-add_metric_labels :
    (n : Bytes) (ls out : List Label) → find n (add_metric_labels ls out) ≡ find n (out ++ named ls)
unfolding add_metric_labels
find-add_metric_labels n [] out = ap (find n) (sym (append-nil out))
find-add_metric_labels n (l ∷ ls) out = elim (Bool-cases (is_empty l.name)) [
  | inl e ↦ rw e (find-add_metric_labels n ls out)
  | inr e ↦ rw e (find-add_metric_labels n ls (add_label l out) ∙ find-add_more n l out (named ls))
]

add_metric_labels-IsDistinct :
    (ls out : List Label) → IsDistinct out → IsDistinct (add_metric_labels ls out)
unfolding add_metric_labels
add_metric_labels-IsDistinct [] out d = d
add_metric_labels-IsDistinct (l ∷ ls) out d = elim (Bool-cases (is_empty l.name)) [
  | inl e ↦ rw e (add_metric_labels-IsDistinct ls out d)
  | inr e ↦ rw e (add_metric_labels-IsDistinct ls _ (add_label-IsDistinct l out d))
]

find-add_extra :
    (n : Bytes) (l : Label) (out : List Label)
    → find n (add_extra l out) ≡ find n (out ++ named (l ∷ []))
unfolding add_extra
find-add_extra n l out = elim (Bool-cases (is_empty l.name)) [
  | inl e ↦ rw e (ap (find n) (sym (append-nil out)))
  | inr e ↦ rw e (find-add_label n l out)
]

add_extra-IsDistinct :
    (l : Label) (out : List Label) → IsDistinct out → IsDistinct (add_extra l out)
unfolding add_extra
add_extra-IsDistinct l out d = elim (Bool-cases (is_empty l.name)) [
  | inl e ↦ rw e d
  | inr e ↦ rw e (add_label-IsDistinct l out d)
]

module _ (name : Bytes) (metric ext : List Label) (extra : Label) where
  collect_labels-IsDistinct : IsDistinct (collect_labels name metric ext extra)
  unfolding collect_labels has_name
  collect_labels-IsDistinct =
      add_external-IsDistinct ext _
        (add_extra-IsDistinct extra _ (add_metric_labels-IsDistinct metric _ (refl, tt)))

  find-collect_labels :
      (n : Bytes)
      → find n (collect_labels name metric ext extra)
        ≡ find n (((name_label name ∷ named metric) ++ named (extra ∷ [])) ++ ext)
  unfolding collect_labels
  find-collect_labels n =
      find-add_external n ext _
      ∙ find-append n _ ext
      ∙ ap (λ o. or_else o (find n ext))
          (find-add_extra n extra _
            ∙ find-append n _ (named (extra ∷ []))
            ∙ ap (λ o. or_else o (find n (named (extra ∷ []))))
                (find-add_metric_labels n metric (name_label name ∷ []))
            ∙ sym (find-append n (name_label name ∷ named metric) (named (extra ∷ []))))
      ∙ sym (find-append n ((name_label name ∷ named metric) ++ named (extra ∷ [])) ext)

  -- The names of a merged label set are strictly ascending, as a receiver demands.
  pub merge_labels-IsAscending : IsAscending (merge_labels name metric ext extra)
  unfolding merge_labels
  merge_labels-IsAscending = sort_labels-IsAscending _ collect_labels-IsDistinct

  -- Each name has the value that the first of these gives it: the metric's name as `__name__`, the
  -- labels of the metric, the extra label, the external labels. Labels with an empty name count for
  -- nothing but among the external ones, and a name that none of them has is not in the set.
  pub merge_labels_precedence :
      (n : Bytes)
      → find n (merge_labels name metric ext extra)
        ≡ find n (((name_label name ∷ named metric) ++ named (extra ∷ [])) ++ ext)
  unfolding merge_labels
  merge_labels_precedence n =
      find-sort n (collect_labels name metric ext extra) collect_labels-IsDistinct
      ∙ find-collect_labels n
