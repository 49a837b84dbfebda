-- ===== src/RemoteWrite/Breaker/Steps.antt =====
-- What each method may do to the breaker, and what the gauge shows of it.
use ollama_exporter.Base.{
  sym, length-append, leb_ℤ, if◌then◌else◌, subst, sat64, ◌-ℤ◌, ◌<ℤ◌, ◌≤ℤ◌, ◌≢◌, suc, pos, length,
  keep_if, Bool-cases, inl, inr, ℤ, ◌≡◌, refl, ap, ◌∙◌, ◌↔◌, true, false, List, [], ◌∷◌, ◌++◌,
  arith,
}
use ollama_exporter.RemoteWrite.Breaker.{
  BreakerState, breaker_closed, breaker_open, breaker_half_open, Breaker, cooled, after, same_state,
  count_failure, allow, record_success, record_failure,
}

pub data Op : Type 0 where
  allows : ℤ → Op
  succeeds : Op
  fails : ℤ → Op

unfoldable pub apply : Op → Breaker → Breaker × List BreakerState
apply (allows now) cb = let (cb', ok, events) = allow now cb in (cb', events)
apply succeeds cb = record_success cb
apply (fails now) cb = record_failure now cb

-- The gauge holds what the observer was last told.
unfoldable pub last_told : BreakerState → List BreakerState → BreakerState
last_told s [] = s
last_told s (t ∷ events) = last_told t events

-- The failures less than a window old, in their order.
pub data Recent (window now : ℤ) : List ℤ → List ℤ → Type 0 where
  none_left : Recent window now [] []
  kept :
      {t : ℤ} {ts rest : List ℤ}
      → (now -ℤ window) <ℤ t
      → Recent window now ts rest
      → Recent window now (t ∷ ts) (t ∷ rest)
  expired :
      {t : ℤ} {ts rest : List ℤ}
      → t ≤ℤ (now -ℤ window)
      → Recent window now ts rest
      → Recent window now (t ∷ ts) rest

-- The diagram of the breaker: what a call makes of it, under which condition. An open breaker waits
-- for its cooldown since it was opened, and then lets a probe through; a success closes it; a failure
-- of the probe opens it again at once, and other failures do when so many of them, this one among
-- them, are recent.
pub data Edge : Op → Breaker → Breaker → Type 0 where
  passes : {now : ℤ} {cb : Breaker} → cb.state ≢ breaker_open → Edge (allows now) cb cb
  waits :
      {now : ℤ} {cb : Breaker}
      → cb.state ≡ breaker_open
      → sat64 (now -ℤ cb.opened_at) <ℤ cb.cooldown
      → Edge (allows now) cb cb
  probes :
      {now : ℤ} {cb : Breaker}
      → cb.state ≡ breaker_open
      → cb.cooldown ≤ℤ sat64 (now -ℤ cb.opened_at)
      → Edge (allows now) cb (record cb { state = breaker_half_open })
  recovers : {cb : Breaker} → Edge succeeds cb (record cb { state = breaker_closed; failures = [] })
  reopens :
      {now : ℤ} {cb : Breaker}
      → cb.state ≡ breaker_half_open
      → Edge (fails now) cb (record cb { state = breaker_open; opened_at = now })
  counts :
      {now : ℤ} {cb : Breaker} {recent : List ℤ}
      → cb.state ≢ breaker_half_open
      → Recent cb.window now cb.failures recent
      → pos (suc (length recent)) <ℤ cb.failure_threshold
      → Edge (fails now) cb (record cb { failures = recent ++ now ∷ [] })
  trips :
      {now : ℤ} {cb : Breaker} {recent : List ℤ}
      → cb.state ≢ breaker_half_open
      → Recent cb.window now cb.failures recent
      → cb.failure_threshold ≤ℤ pos (suc (length recent))
      → Edge (fails now) cb (record cb { state = breaker_open; opened_at = now; failures = [] })

keep_if-Recent : (w now : ℤ) (ts : List ℤ) → Recent w now ts (keep_if (after w now) ts)
keep_if-Recent w now [] = none_left
keep_if-Recent w now (t ∷ ts) = elim (Bool-cases (after w now t)) [
  | inl y ↦ rw y (kept (ground arith) (keep_if-Recent w now ts))
  | inr n ↦ rw n (expired (ground arith) (keep_if-Recent w now ts))
]

Recent-keep_if :
    {w now : ℤ} {ts rest : List ℤ} → Recent w now ts rest → rest ≡ keep_if (after w now) ts
Recent-keep_if none_left = refl
Recent-keep_if (kept {t = t} h r) = ground (arith, Recent-keep_if r)
Recent-keep_if (expired {t = t} h r) = ground (arith, Recent-keep_if r)

-- A failure that is counted, by the failures that are kept.
count_failure_lem :
    (now : ℤ) (cb : Breaker) {recent : List ℤ}
    → recent ≡ keep_if (after cb.window now) cb.failures
    → (count_failure now cb).0 ≡ (
        if leb_ℤ cb.failure_threshold (pos (suc (length recent)))
        then record cb { state = breaker_open; opened_at = now; failures = [] }
        else record cb { failures = recent ++ now ∷ [] })
unfolding count_failure
count_failure_lem now cb {recent} e =
    ground (arith, e, length-append recent (now ∷ []), ap (λ (ts : List ℤ). ts ++ now ∷ []) e)

-- An edge is what the call does.
Edge-apply : {op : Op} {cb cb' : Breaker} → Edge op cb cb' → (apply op cb).0 ≡ cb'
unfolding apply allow record_success record_failure
Edge-apply (passes h) = ground arith
Edge-apply (waits h l) = unfold cooled in ground arith
Edge-apply (probes h l) = unfold cooled in ground arith
Edge-apply recovers = ground arith
Edge-apply (reopens h) = ground arith
Edge-apply (counts {now = now} {cb = cb} h r l) =
    ground (arith, count_failure_lem now cb (Recent-keep_if r))
Edge-apply (trips {now = now} {cb = cb} h r l) =
    ground (arith, count_failure_lem now cb (Recent-keep_if r))

same_state-false : (s t : BreakerState) → same_state s t ≡ false → s ≢ t
unfolding same_state
same_state-false s t h = ground arith

same_state-true : (s t : BreakerState) → same_state s t ≡ true → s ≡ t
unfolding same_state
same_state-true s t h = ground arith

-- Every call has an edge.
some-Edge : (op : Op) (cb : Breaker) → (cb' : Breaker) × Edge op cb cb'
some-Edge succeeds cb = (_, recovers)
some-Edge (allows now) cb = elim (Bool-cases (same_state cb.state breaker_open)) [
  | inr n ↦ (cb, passes {now = now} {cb = cb} (same_state-false cb.state breaker_open n))
  | inl y ↦ elim (Bool-cases (cooled now cb)) [
    | inl c ↦ (
      record cb { state = breaker_half_open },
      probes {now = now} {cb = cb} (same_state-true cb.state breaker_open y)
          (unfold cooled in ground arith),
    )
    | inr c ↦ (
      cb,
      waits {now = now} {cb = cb} (same_state-true cb.state breaker_open y)
          (unfold cooled in ground arith),
    )
  ]
]
some-Edge (fails now) cb = elim (Bool-cases (same_state cb.state breaker_half_open)) [
  | inl y ↦ (
    record cb { state = breaker_open; opened_at = now },
    reopens {now = now} {cb = cb} (same_state-true cb.state breaker_half_open y),
  )
  | inr n ↦ elim (Bool-cases (leb_ℤ cb.failure_threshold (pos (suc (length recent))))) [
    | inl r ↦ (
      record cb { state = breaker_open; opened_at = now; failures = [] },
      trips {now = now} {cb = cb} (same_state-false cb.state breaker_half_open n) found
          (ground arith),
    )
    | inr r ↦ (
      record cb { failures = recent ++ now ∷ [] },
      counts {now = now} {cb = cb} (same_state-false cb.state breaker_half_open n) found
          (ground arith),
    )
  ]
]
  where
    recent : List ℤ
    recent = keep_if (after cb.window now) cb.failures

    found : Recent cb.window now cb.failures recent
    found = keep_if-Recent cb.window now cb.failures

-- The call goes along it.
apply_goes-Edge : (op : Op) (cb : Breaker) → Edge op cb (apply op cb).0
apply_goes-Edge op cb = let (cb', e) = some-Edge op cb in subst (Edge op cb) (sym (Edge-apply e)) e

-- Each call moves the breaker along an edge of its diagram, and along no other: `Allow` leaves an
-- open breaker open until its cooldown has passed and then makes it half-open, and changes no other;
-- a success closes it; a failure opens it again at once where it is half-open, and otherwise is
-- counted, and opens it exactly when the failures of the window reach the threshold.
pub apply-Edge : (op : Op) (cb cb' : Breaker) → Edge op cb cb' ↔ ((apply op cb).0 ≡ cb')
apply-Edge op cb cb' = (Edge-apply, λ e. subst (Edge op cb) e (apply_goes-Edge op cb))

told-apply : (op : Op) (cb : Breaker) → last_told cb.state (apply op cb).1 ≡ (apply op cb).0.state
unfolding apply allow record_success record_failure last_told
told-apply op cb = ground arith

unfoldable pub run : List Op → Breaker → Breaker × List BreakerState
run [] cb = (cb, [])
run (op ∷ ops) cb =
    let (cb', events) = apply op cb in let (end, later) = run ops cb' in (end, events ++ later)

last_told-append :
    (s : BreakerState) (xs ys : List BreakerState)
    → last_told s (xs ++ ys) ≡ last_told (last_told s xs) ys
unfolding last_told
last_told-append s [] ys = refl
last_told-append s (x ∷ xs) ys = last_told-append x xs ys

-- After any calls the state that the observer was last told is the state of the breaker.
pub run_told :
    (ops : List Op) (cb : Breaker) → last_told cb.state (run ops cb).1 ≡ (run ops cb).0.state
unfolding run
run_told [] cb = unfold last_told in refl
run_told (op ∷ ops) cb =
    last_told-append cb.state (apply op cb).1 (run ops (apply op cb).0).1
    ∙ ap (λ s. last_told s (run ops (apply op cb).0).1) (told-apply op cb)
    ∙ run_told ops (apply op cb).0

-- `Allow` refuses exactly while the breaker is open and its cooldown has not passed. A refusal
-- changes nothing; an allowed call of an open breaker makes it half-open.
pub allow_refuses :
    (now : ℤ) (cb : Breaker)
    → (((allow now cb).1 ≡ false) ↔ ((cb.state ≡ breaker_open) × (cooled now cb ≡ false)))
      × ((allow now cb).1 ≡ false → (allow now cb).0 ≡ cb)
      × (cb.state ≡ breaker_open
          → (allow now cb).1 ≡ true
          → (allow now cb).0.state ≡ breaker_half_open)
unfolding allow
allow_refuses now cb = ground arith
