-- ===== src/Collector/Proxy/Counted.antt =====
-- What a compatibility response records, against a description of its fields.
use ollama_exporter.Go.Dict.{lookup}
use ollama_exporter.Base.{
  equal, equal_iff, codes, negsuc, Bool-cases, ℤ, pos, Bytes, ℕ, ◌≡◌, refl, ◌≢◌, ◌↔◌, inl, inr,
  Bool, true, Option, none, some, List, [], ◌∷◌, codes, Any, ◌⊎◌, ap,
}
use ollama_exporter.Collector.JsonFields.{Json, Fields}
use ollama_exporter.Collector.ResponseBody.{decode}
use ollama_exporter.Collector.Proxy.{
  absent, invalid, counted, count_at, check_counts, first_count, usage_model, Count, of_decoded,
  not_null, non_negative, or_model,
}

-- The six fields of a usage that are read, by the name of an API or another.
abbrev pub input_fields : List Bytes
input_fields =
    codes "usage.prompt_tokens"
    ∷ codes "usage.input_tokens"
    ∷ codes "message.usage.input_tokens"
    ∷ []

abbrev pub output_fields : List Bytes
output_fields =
    codes "usage.completion_tokens"
    ∷ codes "usage.output_tokens"
    ∷ codes "message.usage.output_tokens"
    ∷ []

-- What is observed: the number that the source calls `count`.
abbrev pub as_int : Option ℕ → Option ℤ
as_int none = none
as_int (some n) = some (pos n)

module _ (int64_of : Bytes → Option ℤ) (f : Fields) where
  -- A field that is there and not null, and reads as a count that is not negative.
  abbrev pub HasCount : Bytes → ℕ → Type 0
  HasCount k n =
      (raw : Bytes) × (lookup k f ≡ some raw) × (raw ≢ codes "null") × (int64_of raw ≡ some (pos n))

  abbrev pub HasNoCount : Bytes → Type 0
  HasNoCount k = ¬ ((n : ℕ) × HasCount k n)

  abbrev pub HasSome : Bytes → Type 0
  HasSome k = (n : ℕ) × HasCount k n

  -- A field that is there and not null, and does not.
  abbrev pub IsMalformed : Bytes → Type 0
  IsMalformed k = ((raw : Bytes) × (lookup k f ≡ some raw) × (raw ≢ codes "null")) × HasNoCount k

  -- The count of the first of some fields that has one.
  pub data FirstCount : List Bytes → Option ℕ → Type 0 where
    no_count : FirstCount [] none
    first : {k : Bytes} {ks : List Bytes} {n : ℕ} → HasCount k n → FirstCount (k ∷ ks) (some n)
    later :
        {k : Bytes} {ks : List Bytes} {o : Option ℕ}
        → HasNoCount k
        → FirstCount ks o
        → FirstCount (k ∷ ks) o

  -- What `count_at` finds at a field.
  abbrev pub Found : Bytes → Count → Type 0
  Found k absent = HasNoCount k × (¬ (IsMalformed k))
  Found k invalid = IsMalformed k
  Found k (counted a) = (n : ℕ) × (a ≡ pos n) × HasCount k n

  decoded-Found :
      (k raw : Bytes) (d : Option ℤ)
      → lookup k f ≡ some raw
      → raw ≢ codes "null"
      → int64_of raw ≡ d
      → Found k (of_decoded (non_negative d))
  decoded-Found k raw none e ne i = ((raw, e, ne), λ h. cc (e, i, h.1.1, h.1.3))
  decoded-Found k raw (some (negsuc m)) e ne i = ((raw, e, ne), λ h. cc (e, i, h.1.1, h.1.3))
  decoded-Found k raw (some (pos n)) e ne i = (n, refl, (raw, e, ne, i))

  raw-Found :
      (k : Bytes) (o : Option Bytes)
      → lookup k f ≡ o
      → Found k (elim (not_null o) [
        | none ↦ absent
        | some raw ↦ of_decoded (non_negative (int64_of raw))
      ])
  raw-Found k none e = (λ h. cc (e, h.1.1), λ h. cc (e, h.0.1))
  raw-Found k (some raw) e = elim (Bool-cases (equal raw (codes "null"))) [
    | inl y ↦
        let q = (equal_iff raw (codes "null")).0 y in
        rw y (λ h. h.1.2 (cc (e, h.1.1, q)), λ h. h.0.2 (cc (e, h.0.1, q)))
    | inr n ↦ rw n (
        decoded-Found k raw (int64_of raw) e (λ q. cc (n, (equal_iff raw (codes "null")).1 q)) refl)
  ]

  count_at-Found : (k : Bytes) → Found k (count_at int64_of f k)
  unfolding count_at
  count_at-Found k = raw-Found k (lookup k f) refl

  -- The fields that are checked: none may be malformed, and some may have a count.
  abbrev pub Checked : List Bytes → Bool → Option Bool → Type 0
  Checked ks present none = Any IsMalformed ks
  Checked ks present (some b) =
      (¬ (Any IsMalformed ks)) × ((b ≡ true) ↔ ((present ≡ true) ⊎ Any HasSome ks))

  -- One turn of the loop, with the two results of the turns behind it.
  checked_step :
      (k : Bytes) (ks : List Bytes) (present : Bool) (c : Count) (rest with_one : Option Bool)
      → Found k c
      → Checked ks present rest
      → Checked ks true with_one
      → Checked (k ∷ ks) present (elim c [ absent ↦ rest | invalid ↦ none | counted n ↦ with_one ])
  checked_step k ks present absent none with_one found p q = inr p
  checked_step k ks present absent (some b) with_one found p q = (
    (λ h. elim h [ inl m ↦ found.1 m | inr m ↦ p.0 m ]),
    (
      (λ e. elim (p.1.0 e) [ inl x ↦ inl x | inr x ↦ inr (inr x) ]),
      (λ h. elim h [
        | inl x ↦ p.1.1 (inl x)
        | inr y ↦ elim y [ inl z ↦ absurd (found.0 z) | inr z ↦ p.1.1 (inr z) ]
      ]),
    ),
  )
  checked_step k ks present invalid rest with_one found p q = inl found
  checked_step k ks present (counted n) rest none found p q = inr q
  checked_step k ks present (counted n) rest (some b) found p q = (
    (λ h. elim h [ inl m ↦ m.1 (found.0, found.2) | inr m ↦ q.0 m ]),
    ((λ e. inr (inl (found.0, found.2))), (λ h. q.1.1 (inl refl))),
  )

  pub check_counts-Checked :
      (ks : List Bytes) (present : Bool) → Checked ks present (check_counts int64_of f ks present)
  unfolding check_counts
  check_counts-Checked [] present =
      ((λ h. h), ((λ e. inl e), (λ h. elim h [ inl e ↦ e | inr x ↦ absurd x ])))
  check_counts-Checked (k ∷ ks) present =
      checked_step k ks present (count_at int64_of f k) (check_counts int64_of f ks present)
        (check_counts int64_of f ks true) (count_at-Found k) (check_counts-Checked ks present)
        (check_counts-Checked ks true)

  pub first_count-FirstCount :
      (ks : List Bytes) → (o : Option ℕ) × FirstCount ks o × (first_count int64_of f ks ≡ as_int o)
  unfolding first_count
  first_count-FirstCount [] = (none, no_count, refl)
  first_count-FirstCount (k ∷ ks) =
      found (first_count-FirstCount ks) (count_at int64_of f k) (count_at-Found k) refl
    where
      found :
          ((o : Option ℕ) × FirstCount ks o × (first_count int64_of f ks ≡ as_int o))
          → (c : Count) → Found k c
          → count_at int64_of f k ≡ c
          → (o : Option ℕ) × FirstCount (k ∷ ks) o × (first_count int64_of f (k ∷ ks) ≡ as_int o)
      found (o, q, r) absent h e = (o, later h.0 q, rw (e, first_count) r)
      found (o, q, r) invalid h e = (o, later h.1 q, rw (e, first_count) r)
      found _ (counted a) (n, q, h) e =
          (some n, first h, rw (e, first_count) (ap (λ (i : ℤ). some i) q))

-- The model that the request is counted under: the name in the message, else the name beside it,
-- else the requested one. An empty name is no name.
module _ (json : Json) (requested : Bytes) (f : Fields) where
  abbrev pub Names : Bytes → Bytes → Type 0
  Names k m = (decode json (lookup k f) ≡ some m) × (m ≢ [])

  abbrev pub IsUnnamed : Bytes → Type 0
  IsUnnamed k = ¬ ((m : Bytes) × Names k m)

  pub data IsModel : Bytes → Type 0 where
    by_message : {m : Bytes} → Names (codes "message.model") m → IsModel m
    by_field : {m : Bytes} → IsUnnamed (codes "message.model") → Names (codes "model") m → IsModel m
    by_request : IsUnnamed (codes "message.model") → IsUnnamed (codes "model") → IsModel requested

  or_model-cases :
      (k m : Bytes) (o : Option Bytes)
      → decode json (lookup k f) ≡ o
      → Names k (or_model o m) ⊎ (IsUnnamed k × (or_model o m ≡ m))
  or_model-cases k m none e = inr ((λ h. cc (e, h.1.0)), refl)
  or_model-cases k m (some []) e = inr ((λ h. h.1.1 (cc (e, h.1.0))), refl)
  or_model-cases k m (some (c ∷ cs)) e = inl (e, (λ h. cc))

  pub usage_model-IsModel : IsModel (usage_model json requested f)
  unfolding usage_model
  usage_model-IsModel =
      let own = or_model-cases (codes "model") requested _ refl in
      elim (or_model-cases (codes "message.model")
        (or_model (decode json (lookup (codes "model") f)) requested) _ refl) [
          | inl n ↦ by_message n
          | inr (u, e) ↦
              rw e (elim own [ inl n ↦ by_field u n | inr (v, q) ↦ rw q (by_request u v) ])
        ]
