-- ===== src/RemoteWrite/Breaker/Sliding.antt =====
-- The pruned list of failure times against the whole history of failures.
use ollama_exporter.Base.{
  Bool-cases, length, keep_if, keep_if-append, ◌-ℤ◌, ◌≤ℤ◌, ◌<ℤ◌, leb_ℤ, ℤ, pos, ℕ, ◌≡◌, refl, ap,
  ap₂, ◌∙◌, inl, inr, Bool, true, false, ◌||◌, List, [], ◌∷◌, ◌++◌, arith,
}
use ollama_exporter.RemoteWrite.Breaker.{
  breaker_closed, breaker_open, Breaker, same_state, record_failure, after,
}

after_mono : (w last now t : ℤ) → last ≤ℤ now → after w now t ≡ true → after w last t ≡ true
unfolding ◌-ℤ◌
after_mono w last now t h k = ground arith

after_self : (w now : ℤ) → pos 0 <ℤ w → after w now now ≡ true
unfolding ◌-ℤ◌
after_self w now h = ground arith

-- Pruning by an earlier cutoff first makes no difference.
keep_if-after :
    (w last now : ℤ) (history : List ℤ)
    → last ≤ℤ now
    → keep_if (after w now) (keep_if (after w last) history) ≡ keep_if (after w now) history
keep_if-after w last now [] h = refl
keep_if-after w last now (t ∷ ts) h =
    ground (arith, after_mono w last now t h, keep_if-after w last now ts h)

-- How many of the failures of a history are less than a window old.
unfoldable pub recent : ℤ → ℤ → List ℤ → ℕ
recent w now history = length (keep_if (after w now) history)

-- Whether at some failure of `ts` the failures of the last window, counted in the whole history,
-- reach the threshold.
unfoldable pub reached : ℤ → ℤ → List ℤ → List ℤ → Bool
reached threshold w history [] = false
reached threshold w history (t ∷ ts) =
    let seen = history ++ t ∷ [] in
    leb_ℤ threshold (pos (recent w t seen)) || reached threshold w seen ts

-- Whether the breaker opens at some failure of `ts`.
unfoldable pub opens : Breaker → List ℤ → Bool
opens cb [] = false
opens cb (t ∷ ts) =
    let (cb', events) = record_failure t cb in same_state cb'.state breaker_open || opens cb' ts

abbrev pub Ascending : ℤ → List ℤ → Type 0
Ascending last [] = Unit
Ascending last (t ∷ ts) = (last ≤ℤ t) × Ascending t ts

-- A closed breaker holds the failures that were recent at the last one.
record Tracks (cb : Breaker) (last : ℤ) (history : List ℤ) : Type 0 where
  is_closed : cb.state ≡ breaker_closed
  window_pos : pos 0 <ℤ cb.window
  kept : cb.failures ≡ keep_if (after cb.window last) history

-- Pruning and appending keeps exactly the failures of the history that are recent now.
counted :
    {cb : Breaker} {last : ℤ} (now : ℤ) {history : List ℤ}
    → Tracks cb last history
    → last ≤ℤ now
    → keep_if (after cb.window now) cb.failures ++ now ∷ []
      ≡ keep_if (after cb.window now) (history ++ now ∷ [])
counted {cb} {last} now {history} tr h =
    ap (λ ts. keep_if (after cb.window now) ts ++ now ∷ []) tr.kept
    ∙ ap (λ ts. ts ++ now ∷ []) (keep_if-after cb.window last now history h)
    ∙ rw keep_if-append (rw (after_self cb.window now tr.window_pos))

-- A failure of a closed breaker opens it when the threshold is reached, and is only counted if not.
record_failure-Tracks :
    {cb : Breaker} {last : ℤ} (now : ℤ) {history : List ℤ}
    → Tracks cb last history
    → last ≤ℤ now
    → leb_ℤ cb.failure_threshold (pos (recent cb.window now (history ++ now ∷ []))) ≡ false
    → Tracks (record_failure now cb).0 now (history ++ now ∷ [])
unfolding record_failure recent
record_failure-Tracks now {history} tr h few =
    ground (arith, counted now tr h, ap length (counted now tr h))

record_failure_trips :
    {cb : Breaker} {last : ℤ} (now : ℤ) {history : List ℤ}
    → Tracks cb last history
    → last ≤ℤ now
    → same_state (record_failure now cb).0.state breaker_open
      ≡ leb_ℤ cb.failure_threshold (pos (recent cb.window now (history ++ now ∷ [])))
unfolding record_failure recent
record_failure_trips now {history} tr h = ground (arith, ap length (counted now tr h))

config_kept :
    (now : ℤ) (cb : Breaker)
    → ((record_failure now cb).0.failure_threshold ≡ cb.failure_threshold)
      × ((record_failure now cb).0.window ≡ cb.window)
unfolding record_failure
config_kept now cb = ground arith

opens-reached :
    (ts : List ℤ) {cb : Breaker} {last : ℤ} {history : List ℤ}
    → Tracks cb last history
    → Ascending last ts
    → opens cb ts ≡ reached cb.failure_threshold cb.window history ts
unfolding opens reached
opens-reached [] tr asc = refl
opens-reached (t ∷ ts) {cb} {last} {history} tr (h, asc) =
    elim (Bool-cases (leb_ℤ cb.failure_threshold (pos (recent cb.window t (history ++ t ∷ []))))) [
      | inl full ↦ rw (record_failure_trips t tr h, full)
      | inr few ↦
          rw (record_failure_trips t tr h, few)
            (opens-reached ts (record_failure-Tracks t tr h few) asc
              ∙ ap₂ (λ n w. reached n w (history ++ t ∷ []) ts) (config_kept t cb).0
                  (config_kept t cb).1)
    ]

-- From a closed breaker with a positive window and no failure counted, non-retryable failures at
-- times in order open it at some failure exactly when some window that ends at a failure holds
-- `failure_threshold` of the failures so far: pruning the list at each failure never loses one
-- that still counts.
pub opens_sliding :
    (cb : Breaker) (last : ℤ) (ts : List ℤ)
    → cb.state ≡ breaker_closed
    → cb.failures ≡ []
    → pos 0 <ℤ cb.window
    → Ascending last ts
    → opens cb ts ≡ reached cb.failure_threshold cb.window [] ts
opens_sliding cb last ts c e w asc =
    opens-reached ts {last = last} (record { is_closed = c; window_pos = w; kept = e }) asc
