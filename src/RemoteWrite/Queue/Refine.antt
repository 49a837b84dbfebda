-- ===== src/RemoteWrite/Queue/Refine.antt =====
-- The ring implements the list of `Fifo.antt`.
use native.Mathlib.Nat.{mod-add-mod, mod-mod, mod-lt, div-add-mod, mod-eq_of_lt}
use native.Mathlib.Numerals.{add-one}
use ollama_exporter.Base.{
  ◌==◌, if◌then◌else◌, Bool-cases, length, get_or, set, get_or-set_self, get_or-set_ne, ℕ, zero,
  suc, ◌+◌, ◌-◌, ◌%◌, ◌≤◌, ◌<◌, ◌≡◌, refl, sym, ap, ap₂, ◌∙◌, ◌≢◌, inl, inr, Option, List, [], ◌∷◌,
  ◌++◌, arith,
}
use ollama_exporter.RemoteWrite.Queue.{
  Queue, CtxErr, append_tail, take_head, evict, make_room, enqueue, dequeue, dequeue_empty,
}
use ollama_exporter.RemoteWrite.Queue.Fifo.{slots, contents, put, take, tail}
use ollama_exporter.RemoteWrite.Queue.Inv.{IsValid, make_room-IsValid, enqueue_lem}

-- Two positions less than `c` apart have different slots.
mod-ne : (a b c : ℕ) → a < b → b < a + c → a % c ≢ b % c
mod-ne a b c h k e = grind (arith, div-add-mod a c, div-add-mod b c)

module _ {A : Type 0} where
  pub length-slots : (buf : List (List A)) (c s n : ℕ) → length (slots buf c s n) ≡ n
  length-slots buf c s zero = refl
  length-slots buf c s (suc n) = ap suc (length-slots buf c (suc s) n)

  -- A write to the slot just before a window leaves the window alone.
  slots-set_before :
      (buf : List (List A)) (c s n t : ℕ) (v : List A)
      → t < s
      → s + n ≤ t + c
      → slots (set buf (t % c) v) c s n ≡ slots buf c s n
  slots-set_before buf c s zero t v h k = refl
  slots-set_before buf c s (suc n) t v h k =
      ap₂ ◌∷◌ (get_or-set_ne buf v [] (mod-ne t s c h (omega arith)))
        (slots-set_before buf c (suc s) n t v (omega arith) (omega arith))

  -- A write to the slot just behind a window makes it longer by the value.
  slots-set_behind :
      (buf : List (List A)) (c s n t : ℕ) (v : List A)
      → t ≡ s + n
      → n < c
      → c ≤ length buf
      → slots (set buf (t % c) v) c s (suc n) ≡ slots buf c s n ++ v ∷ []
  slots-set_behind buf c s zero t v e h k =
      ap (λ x. x ∷ [])
        (ap (λ i. get_or (set buf (t % c) v) (i % c) []) (omega arith)
          ∙ get_or-set_self buf (t % c) v [] (omega (arith, mod-lt t {m = c} h)))
  slots-set_behind buf c s (suc n) t v e h k =
      ap₂ ◌∷◌ (get_or-set_ne buf v [] (λ p. mod-ne s t c (omega arith) (omega arith) (sym p)))
        (slots-set_behind buf c (suc s) n t v (omega arith) (omega arith) k)

  -- A window may start at a position or at its slot.
  slots_mod : (buf : List (List A)) (c s n : ℕ) → slots buf c (s % c) n ≡ slots buf c s n
  slots_mod buf c s zero = refl
  slots_mod buf c s (suc n) =
      ap₂ (λ i r. get_or buf i [] ∷ r) (mod-mod s c)
        (sym (slots_mod buf c (suc (s % c)) n)
          ∙ ap (λ i. slots buf c i n)
              (ap (λ k. k % c) (omega arith) ∙ mod-add-mod s c 1 ∙ ap (λ k. k % c) (omega arith))
          ∙ slots_mod buf c (suc s) n)

  pub contents-cons :
      {q : Queue A}
      → IsValid q
      → q.size ≢ 0
      → contents q ≡ get_or q.buf q.head [] ∷ contents (take_head q)
  unfolding take_head
  contents-cons {q} v ne =
      ap (slots q.buf q.cap q.head) one_more
      ∙ ap₂ ◌∷◌ (ap (λ i. get_or q.buf i []) in_slot) (
          ap (λ s. slots q.buf q.cap s (q.size - 1)) (omega arith)
          ∙ sym (
              slots-set_before q.buf q.cap (q.head + 1) (q.size - 1) q.head [] (omega arith)
                (omega arith))
          ∙ ap (λ i. slots (set q.buf i []) q.cap (q.head + 1) (q.size - 1)) in_slot
          ∙ sym (slots_mod (set q.buf q.head []) q.cap (q.head + 1) (q.size - 1)))
    where
      one_more : q.size ≡ suc (q.size - 1)
      one_more = omega arith

      in_slot : q.head % q.cap ≡ q.head
      in_slot = mod-eq_of_lt v.head_in

  pub contents-append_tail :
      {q : Queue A} (batch : List A)
      → IsValid q
      → q.size < q.cap
      → contents (append_tail q batch) ≡ contents q ++ batch ∷ []
  unfolding append_tail
  contents-append_tail {q} batch v lt =
      ap (slots (set q.buf ((q.head + q.size) % q.cap) batch) q.cap q.head) (add-one q.size)
      ∙ slots-set_behind q.buf q.cap q.head q.size (q.head + q.size) batch refl lt (omega arith)

  contents-make_room :
      {q : Queue A}
      → IsValid q
      → contents (make_room q).0
        ≡ (if length (contents q) == q.cap then tail (contents q) else contents q)
  unfolding make_room evict
  contents-make_room {q} v = rw length-slots (elim (Bool-cases (q.size == q.cap)) [
    | inl full ↦ ground (arith, ap tail (contents-cons v (ground arith)))
    | inr room ↦ ground arith
  ])

  -- On a valid queue `Enqueue` does to the batches held, oldest first, what `put` does to a list:
  -- nothing if the queue is closed; else the batch goes to the end, and the oldest one is dropped
  -- first if the queue is full.
  pub enqueue_refines :
      {q : Queue A} (batch : List A)
      → IsValid q
      → contents (enqueue q batch).0 ≡ put q.cap q.closed (contents q) batch
  unfolding put
  enqueue_refines {q} batch v =
      let (ok, lt) = make_room-IsValid v in
      ground (arith, enqueue_lem q batch, contents-append_tail batch ok lt, contents-make_room v)

  -- On a valid queue `Dequeue` does what `take` does to the list of batches: it returns the oldest
  -- one and leaves the rest, or, if there is none, says that the queue is closed, or waits, or
  -- returns the context's error, in this order of precedence.
  pub dequeue_refines :
      {q : Queue A} (err : Option CtxErr)
      → IsValid q
      → let (r, d, events) = dequeue q err in (d, contents r) ≡ take q.closed err (contents q)
  unfolding dequeue dequeue_empty take
  dequeue_refines {q} err v =
      ground (arith, contents-cons v, length-slots q.buf q.cap q.head q.size)
