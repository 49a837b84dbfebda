-- ===== src/RemoteWrite/Convert/Sorted.antt =====
-- Label sets in order of their names, and what sorting does to look-ups.
use ollama_exporter.Base.{
  if◌then◌else◌, Bool-cases, All, Bytes, equal, less, equal_iff, less_trans, less_total, equal_comm,
  ◌≡◌, refl, ap, ◌∙◌, inl, inr, true, false, ◌||◌, Option, none, some, List, [], ◌∷◌, arith,
}
use ollama_exporter.RemoteWrite.Convert.{Label, insert_sorted, sort_labels, has_name}

abbrev pub IsAbove : Label → List Label → Type 0
IsAbove l ls = All (λ m. less l.name m.name ≡ true) ls

-- Sorted by name, and no name twice.
abbrev pub IsAscending : List Label → Type 0
IsAscending [] = Unit
IsAscending (l ∷ ls) = IsAbove l ls × IsAscending ls

abbrev pub IsDistinct : List Label → Type 0
IsDistinct [] = Unit
IsDistinct (l ∷ ls) = (has_name l.name ls ≡ false) × IsDistinct ls

-- The value of the first label with a name.
unfoldable pub find : Bytes → List Label → Option Bytes
find n [] = none
find n (l ∷ ls) = if equal l.name n then some l.value else find n ls

-- Sorting.
pub IsAbove-trans :
    (l m : Label) (ls : List Label) → less l.name m.name ≡ true → IsAbove m ls → IsAbove l ls
IsAbove-trans l m [] h a = tt
IsAbove-trans l m (x ∷ ls) h (p, a) =
    (less_trans l.name m.name x.name h p, IsAbove-trans l m ls h a)

pub IsAbove-insert :
    (k l : Label) (ls : List Label)
    → less k.name l.name ≡ true
    → IsAbove k ls
    → IsAbove k (insert_sorted l ls)
unfolding insert_sorted
IsAbove-insert k l [] h a = (h, tt)
IsAbove-insert k l (m ∷ ls) h (p, a) = elim (Bool-cases (less l.name m.name)) [
  | inl e ↦ rw e (h, (p, a))
  | inr e ↦ rw e (p, IsAbove-insert k l ls h a)
]

pub insert_sorted-IsAscending :
    (l : Label) (ls : List Label)
    → has_name l.name ls ≡ false
    → IsAscending ls
    → IsAscending (insert_sorted l ls)
unfolding insert_sorted has_name
insert_sorted-IsAscending l [] d a = (tt, tt)
insert_sorted-IsAscending l (m ∷ ls) d (p, a) = elim (Bool-cases (less l.name m.name)) [
  | inl e ↦ rw e ((e, IsAbove-trans l m ls e p), (p, a))
  | inr e ↦
      let apart : equal l.name m.name ≡ false = ground (arith, equal_comm l.name m.name) in
      rw e (
        IsAbove-insert m l ls (less_total l.name m.name apart e) p,
        insert_sorted-IsAscending l ls (ground arith) a,
      )
]

pub has_name-insert_sorted :
    (n : Bytes) (l : Label) (ls : List Label)
    → has_name n (insert_sorted l ls) ≡ (equal l.name n || has_name n ls)
unfolding insert_sorted has_name
has_name-insert_sorted n l [] = refl
has_name-insert_sorted n l (m ∷ ls) = ground (arith, has_name-insert_sorted n l ls)

pub has_name-sort : (n : Bytes) (ls : List Label) → has_name n (sort_labels ls) ≡ has_name n ls
unfolding sort_labels has_name
has_name-sort n [] = refl
has_name-sort n (l ∷ ls) =
    has_name-insert_sorted n l (sort_labels ls) ∙ ap (λ b. equal l.name n || b) (has_name-sort n ls)

pub sort_labels-IsAscending : (ls : List Label) → IsDistinct ls → IsAscending (sort_labels ls)
unfolding sort_labels
sort_labels-IsAscending [] d = tt
sort_labels-IsAscending (l ∷ ls) (h, d) =
    insert_sorted-IsAscending l (sort_labels ls) (has_name-sort l.name ls ∙ h)
      (sort_labels-IsAscending ls d)

pub find_missing : (n : Bytes) (ls : List Label) → has_name n ls ≡ false → find n ls ≡ none
unfolding find has_name
find_missing n [] h = refl
find_missing n (l ∷ ls) h = ground (arith, find_missing n ls)

pub find-insert_sorted :
    (n : Bytes) (l : Label) (ls : List Label)
    → has_name l.name ls ≡ false
    → find n (insert_sorted l ls) ≡ find n (l ∷ ls)
unfolding insert_sorted find has_name
find-insert_sorted n l [] d = refl
find-insert_sorted n l (m ∷ ls) d = ground (
  arith,
  find-insert_sorted n l ls,
  equal_iff l.name n,
  equal_iff m.name n,
  equal_iff m.name l.name,
)

pub find-sort : (n : Bytes) (ls : List Label) → IsDistinct ls → find n (sort_labels ls) ≡ find n ls
unfolding sort_labels find
find-sort n [] d = refl
find-sort n (l ∷ ls) (h, d) =
    find-insert_sorted n l (sort_labels ls) (has_name-sort l.name ls ∙ h)
    ∙ ap (λ o. if equal l.name n then some l.value else o) (find-sort n ls d)
