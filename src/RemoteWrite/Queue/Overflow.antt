-- ===== src/RemoteWrite/Queue/Overflow.antt =====
-- What is left after a run of `Enqueue` calls with no `Dequeue` between them.
use ollama_exporter.Base.{
  ◌==◌, Bool-cases, length, drop, length-append, ℕ, zero, suc, ◌+◌, ◌-◌, ◌≤◌, ◌<◌, ◌≡◌, refl, sym,
  ap, ap₂, ◌∙◌, inl, inr, false, List, [], ◌∷◌, ◌++◌, append-nil, append_assoc, arith,
}
use ollama_exporter.RemoteWrite.Queue.{Queue, enqueue}
use ollama_exporter.RemoteWrite.Queue.Fifo.{contents, put}
use ollama_exporter.RemoteWrite.Queue.Inv.{IsValid, enqueue-IsValid, enqueue_kept}
use ollama_exporter.RemoteWrite.Queue.Refine.{enqueue_refines, length-slots}

drop-drop-append {ℓ} :
    {A : Type ℓ} (j k : ℕ) (xs ys : List A)
    → k ≤ length xs
    → drop j (drop k xs ++ ys) ≡ drop (k + j) (xs ++ ys)
drop-drop-append j zero xs ys h = ap (λ n. drop n (xs ++ ys)) (omega arith)
drop-drop-append j (suc k) [] ys h = absurd (omega arith)
drop-drop-append j (suc k) (x ∷ xs) ys h =
    drop-drop-append j k xs ys (omega arith) ∙ ap (λ n. drop n (x ∷ (xs ++ ys))) same
  where
    same : suc (k + j) ≡ suc k + j
    same = omega arith

module _ {A : Type 0} where
  unfoldable pub enqueue_all : Queue A → List (List A) → Queue A
  enqueue_all q [] = q
  enqueue_all q (batch ∷ rest) = enqueue_all (enqueue q batch).0 rest

  -- `put` in one form: the newest `cap` of the old batches and the new one.
  put-drop :
      (cap : ℕ) (items : List (List A)) (batch : List A)
      → 0 < cap
      → length items ≤ cap
      → put cap false items batch ≡ drop (length items + 1 - cap) (items ++ batch ∷ [])
  unfolding put
  put-drop cap [] batch h k = ground (arith, ap (λ n. drop n (batch ∷ [])) none_more)
    where
      none_more : 0 + 1 - cap ≡ 0
      none_more = omega arith
  put-drop cap (x ∷ xs) batch h k = elim (Bool-cases (suc (length xs) == cap)) [
    | inl full ↦
        let e : suc (length xs) + 1 - cap ≡ 1 = ground arith in
        ground (arith, ap (λ n. drop n (x ∷ (xs ++ batch ∷ []))) e)
    | inr room ↦
        let e : suc (length xs) + 1 - cap ≡ 0 = ground arith in
        ground (arith, ap (λ n. drop n (x ∷ (xs ++ batch ∷ []))) e)
  ]

  put_newest :
      {q : Queue A} (batch : List A)
      → IsValid q
      → q.closed ≡ false
      → contents (enqueue q batch).0 ≡ drop (q.size + 1 - q.cap) (contents q ++ batch ∷ [])
  put_newest {q} batch v o =
      enqueue_refines batch v
      ∙ ap (λ c. put q.cap c (contents q) batch) o
      ∙ put-drop q.cap (contents q) batch v.room (rw length-slots v.size_in)
      ∙ ap (λ n. drop (n + 1 - q.cap) (contents q ++ batch ∷ []))
          (length-slots q.buf q.cap q.head q.size)

  -- Of the batches held and the batches enqueued, in this order, an open queue keeps the newest
  -- `cap`, and drops only as many as do not fit.
  pub enqueue_all_newest :
      (batches : List (List A)) {q : Queue A}
      → IsValid q
      → q.closed ≡ false
      → contents (enqueue_all q batches)
        ≡ drop (q.size + length batches - q.cap) (contents q ++ batches)
  unfolding enqueue_all
  enqueue_all_newest [] {q} v o =
      sym (append-nil (contents q)) ∙ ap (λ n. drop n (contents q ++ [])) none_more
    where
      none_more : 0 ≡ q.size + 0 - q.cap
      none_more = omega arith
  enqueue_all_newest (batch ∷ rest) {q} v o =
      let (caps, shut, size) = enqueue_kept q batch v in
      enqueue_all_newest rest (enqueue-IsValid batch v) (shut ∙ o)
      ∙ ap₂ (λ n items. drop n (items ++ rest)) refl (put_newest batch v o)
      ∙ drop-drop-append _ (q.size + 1 - q.cap) (contents q ++ batch ∷ []) rest fits
      ∙ ap₂ drop same (append_assoc (contents q) (batch ∷ []) rest)
    where
      fits : q.size + 1 - q.cap ≤ length (contents q ++ batch ∷ [])
      fits =
          omega
            (arith, length-append (contents q) (batch ∷ []), length-slots q.buf q.cap q.head q.size)

      same :
          q.size + 1 - q.cap + ((enqueue q batch).0.size + length rest - (enqueue q batch).0.cap)
          ≡ q.size + suc (length rest) - q.cap
      same = omega (arith, enqueue_kept q batch v, (enqueue_kept q batch v).2 o)
