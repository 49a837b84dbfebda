-- ===== src/RemoteWrite/Wire/Status.antt =====
-- Which results of a POST are final, which are tried again, and after what delay.
use ollama_exporter.Base.{
  ◌-ℤ◌, ltb_ℤ, Bool-cases, inl, inr, subst, sym, refl, ◌<ℤ◌, ℤ, pos, Bytes, ℕ, ◌*◌, ◌≤◌, ◌<◌, ◌≡◌,
  ◌≢◌, ◌↔◌, ◌⊎◌, Option, none, some, [], ◌∷◌, arith, wrap64, negsuc, sat64, ◌≤ℤ◌, Option-cases,
}
use ollama_exporter.Go.Strconv.{atoi}
use ollama_exporter.RemoteWrite.Wire.{
  SendError, err_retryable, err_non_retryable, second, parse_retry_after, date_delay, seconds64,
  classify_status,
}

-- The table in the comment of `classifyStatus`.
pub data Verdict : Type 0 where
  delivered rejected try_later : Verdict

unfoldable pub verdict : Option SendError → Verdict
verdict none = delivered
verdict (some (err_non_retryable status)) = rejected
verdict (some _) = try_later

abbrev pub delay_of : Option SendError → ℤ
delay_of (some (err_retryable status delay)) = delay
delay_of _ = pos 0

abbrev pub IsRejecting : ℕ → Type 0
IsRejecting s = (s ≡ 400) ⊎ ((s ≡ 401) ⊎ ((s ≡ 403) ⊎ (s ≡ 404)))

-- A status on which the receiver may ask for a delay.
abbrev pub MayDelay : ℕ → Type 0
MayDelay s = (s ≡ 408) ⊎ ((s ≡ 429) ⊎ ((500 ≤ s) × (s < 600)))

-- The delay that a `Retry-After` asks for: a number of seconds, in an int64 of nanoseconds; the time
-- until a date that is ahead, at most the longest duration; and none otherwise.
pub data AsksFor (parse_time : Bytes → Option ℤ) (now : ℤ) (header : Bytes) : ℤ → Type 0 where
  in_seconds :
      (secs : ℕ)
      → header ≢ []
      → atoi header ≡ some (pos secs)
      → AsksFor parse_time now header (wrap64 (pos (secs * second)))
  in_past : (n : ℕ) → atoi header ≡ some (negsuc n) → AsksFor parse_time now header (pos 0)
  until_date :
      (t : ℤ)
      → header ≢ []
      → atoi header ≡ none
      → parse_time header ≡ some t
      → now <ℤ t
      → AsksFor parse_time now header (sat64 (t -ℤ now))
  gone_by :
      (t : ℤ)
      → header ≢ []
      → atoi header ≡ none
      → parse_time header ≡ some t
      → t ≤ℤ now
      → AsksFor parse_time now header (pos 0)
  unreadable :
      header ≢ []
      → atoi header ≡ none
      → parse_time header ≡ none
      → AsksFor parse_time now header (pos 0)
  missing : header ≡ [] → AsksFor parse_time now header (pos 0)

module _ (parse_time : Bytes → Option ℤ) (now : ℤ) (c : ℕ) (cs : Bytes) where
  date_delay-AsksFor :
      (d : Option ℤ)
      → atoi (c ∷ cs) ≡ none
      → parse_time (c ∷ cs) ≡ d
      → AsksFor parse_time now (c ∷ cs) (date_delay now d)
  unfolding date_delay
  date_delay-AsksFor none a p = unreadable (λ e. cc e) a p
  date_delay-AsksFor (some t) a p = elim (Bool-cases (ltb_ℤ (pos 0) (sat64 (t -ℤ now)))) [
    | inl y ↦
        subst (AsksFor parse_time now (c ∷ cs)) (rw y)
          (until_date t (λ e. cc e) a p (unfold sat64 ◌-ℤ◌ in ground arith))
    | inr n ↦
        subst (AsksFor parse_time now (c ∷ cs)) (rw n)
          (gone_by t (λ e. cc e) a p (unfold sat64 ◌-ℤ◌ in ground arith))
  ]

parse_retry_after-AsksFor :
    (parse_time : Bytes → Option ℤ) (header : Bytes) (now : ℤ)
    → AsksFor parse_time now header (parse_retry_after parse_time header now)
unfolding parse_retry_after
parse_retry_after-AsksFor parse_time [] now = missing refl
parse_retry_after-AsksFor parse_time (c ∷ cs) now = elim (Option-cases (atoi (c ∷ cs))) [
  | inl a ↦
      rw (a, parse_retry_after)
        (date_delay-AsksFor parse_time now c cs (parse_time (c ∷ cs)) a refl)
  | inr (pos secs, a) ↦
      rw (a, parse_retry_after) (unfold seconds64 in in_seconds secs (λ e. cc e) a)
  | inr (negsuc n, a) ↦ rw (a, parse_retry_after) (in_past n a)
]

classify_status-delay :
    (parse_time : Bytes → Option ℤ) (status : ℕ) (header : Bytes) (now : ℤ)
    → MayDelay status
    → delay_of (classify_status parse_time status header now)
      ≡ parse_retry_after parse_time header now
unfolding classify_status
classify_status-delay parse_time status header now h = ground arith

-- A status is taken as delivered exactly if it is 2xx, as final exactly if it is 400, 401, 403 or
-- 404, and any other is tried again with its status kept. On 408, 429 and 5xx the delay is the one
-- that the header asks for: its number of seconds as an int64 of nanoseconds, which wraps, the time
-- until its date, or none; on any other status there is none.
pub classify_status_table :
    (parse_time : Bytes → Option ℤ) (status : ℕ) (header : Bytes) (now : ℤ)
    → let r = classify_status parse_time status header now in
      ((verdict r ≡ delivered) ↔ ((200 ≤ status) × (status < 300)))
      × ((verdict r ≡ rejected) ↔ IsRejecting status)
      × (verdict r ≡ try_later
          → (r ≡ some (err_retryable status (delay_of r)))
            × (MayDelay status → AsksFor parse_time now header (delay_of r))
            × (¬ (MayDelay status) → delay_of r ≡ pos 0))
unfolding classify_status verdict
classify_status_table parse_time status header now =
    let asked : MayDelay status
        → AsksFor parse_time now header (delay_of (classify_status parse_time status header now)) =
      λ m.
        subst (AsksFor parse_time now header)
          (sym (classify_status-delay parse_time status header now m))
          (parse_retry_after-AsksFor parse_time header now) in
    (ground arith, ground arith, λ v. (ground arith, asked, ground arith))

-- A header that reads as a number of seconds up to 9223372036 is this delay, in nanoseconds.
pub parse_retry_after_seconds :
    (parse_time : Bytes → Option ℤ) (header : Bytes) (now : ℤ) (secs : ℕ)
    → atoi header ≡ some (pos secs)
    → secs ≤ 9223372036
    → parse_retry_after parse_time header now ≡ pos (secs * second)
unfolding parse_retry_after
parse_retry_after_seconds parse_time [] now secs h le = unfold atoi in cc
parse_retry_after_seconds parse_time (c ∷ cs) now secs h le = ground arith

-- A header that reads as a number of seconds from 9223372037 to 18446744073 is a negative delay,
-- since the product wraps.
pub parse_retry_after_wraps :
    (parse_time : Bytes → Option ℤ) (header : Bytes) (now : ℤ) (secs : ℕ)
    → atoi header ≡ some (pos secs)
    → 9223372037 ≤ secs
    → secs ≤ 18446744073
    → parse_retry_after parse_time header now <ℤ pos 0
unfolding parse_retry_after
parse_retry_after_wraps parse_time [] now secs h lo hi = unfold atoi in cc
parse_retry_after_wraps parse_time (c ∷ cs) now secs h lo hi = ground arith
