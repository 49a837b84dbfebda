-- ===== src/Gpu/Apple/Sampler.antt =====
-- What the gauges show after any polls, and how often the sampler warns.
use ollama_exporter.Base.{
  if◌then◌else◌, Bytes, ℕ, suc, ◌+◌, ◌≡◌, refl, sym, ap, ◌∙◌, subst, Bool, true, false, not, ◌&&◌,
  Option, none, some, List, [], ◌∷◌, ◌++◌, arith,
}
use ollama_exporter.Gpu.Float.{Float}
use ollama_exporter.Gpu.Apple.{
  Level, info, warn, debug, IoAccelStats, parse_io_accelerator, AppleSampler, used_of, poll,
  poll_stats, run,
}

module _ (fl : Float) where
  open fl use {F, of_uint64, is_pos}

  -- What one reading says by itself.
  abbrev pub stats_of : Option Bytes → Option (IoAccelStats fl)
  stats_of none = none
  stats_of (some out) = parse_io_accelerator fl out

  abbrev pub succeeded : Option (IoAccelStats fl) → Bool
  succeeded none = false
  succeeded (some s) = true

  abbrev pub shown_utilization : Option (IoAccelStats fl) → Option F
  shown_utilization none = none
  shown_utilization (some s) = some s.utilization_percent

  abbrev pub memory_reading : Option ℕ → Option F
  memory_reading none = none
  memory_reading (some n) = some (of_uint64 n)

  abbrev pub shown_memory : Option (IoAccelStats fl) → Option F
  shown_memory none = none
  shown_memory (some s) = memory_reading s.in_use_memory_bytes

  -- The gauges of a sampler that last read this.
  pub record Shows (o : Option (IoAccelStats fl)) (s : AppleSampler fl) : Type 0 where
    pub utilization : s.utilization ≡ shown_utilization o
    pub memory : s.vram_used ≡ shown_memory o
    pub healthy : s.healthy ≡ succeeded o
    pub polled : s.polled ≡ true

  used_of_lem : (o : Option ℕ) → used_of fl o ≡ memory_reading o
  used_of_lem none = refl
  used_of_lem (some n) = refl

  poll_stats-Shows :
      (o : Option (IoAccelStats fl)) (s : AppleSampler fl) → Shows o (poll_stats fl o s).0
  unfolding poll_stats
  poll_stats-Shows none s = record {
    utilization = refl;
    memory = refl;
    healthy = refl;
    polled = refl;
  }
  poll_stats-Shows (some stats) s = record {
    utilization = refl;
    memory = used_of_lem stats.in_use_memory_bytes;
    healthy = refl;
    polled = refl;
  }

  poll_lem :
      (out : Option Bytes) (s : AppleSampler fl) → poll fl out s ≡ poll_stats fl (stats_of out) s
  unfolding poll poll_stats
  poll_lem none s = refl
  poll_lem (some out) s = refl

  abbrev pub warnings : List Level → ℕ
  warnings [] = 0
  warnings (warn ∷ ls) = suc (warnings ls)
  warnings (_ ∷ ls) = warnings ls

  -- The number of spells of failure, where the poll before them had failed or not.
  abbrev pub spells : Bool → List (Option Bytes) → ℕ
  spells failing [] = 0
  spells failing (out ∷ outs) =
      (if not failing && not (succeeded (stats_of out)) then 1 else 0)
      + spells (not (succeeded (stats_of out))) outs

  abbrev pub was_failing : AppleSampler fl → Bool
  was_failing s = s.polled && not s.healthy

  poll_stats-warnings :
      (o : Option (IoAccelStats fl)) (s : AppleSampler fl)
      → warnings (poll_stats fl o s).1 ≡ (if not (was_failing s) && not (succeeded o) then 1 else 0)
  unfolding poll_stats
  poll_stats-warnings none s = ground arith
  poll_stats-warnings (some stats) s = ground arith

  warnings-append : (a b : List Level) → warnings (a ++ b) ≡ warnings a + warnings b
  warnings-append [] b = omega arith
  warnings-append (warn ∷ a) b = omega (arith, warnings-append a b)
  warnings-append (info ∷ a) b = warnings-append a b
  warnings-append (debug ∷ a) b = warnings-append a b

  poll-warnings :
      (out : Option Bytes) (s : AppleSampler fl)
      → warnings (poll fl out s).1
        ≡ (if not (was_failing s) && not (succeeded (stats_of out)) then 1 else 0)
  poll-warnings out s =
      ap (λ (r : AppleSampler fl × List Level × Bool). warnings r.1) (poll_lem out s)
      ∙ poll_stats-warnings (stats_of out) s

  poll-failing :
      (out : Option Bytes) (s : AppleSampler fl)
      → was_failing (poll fl out s).0 ≡ not (succeeded (stats_of out))
  poll-failing out s =
      ap (λ (r : AppleSampler fl × List Level × Bool). was_failing r.0) (poll_lem out s)
      ∙ (let h = poll_stats-Shows (stats_of out) s in ground arith)

  -- Through any polls the sampler warns exactly once for each spell of failed polls.
  pub warnings-run :
      (outs : List (Option Bytes)) (s : AppleSampler fl)
      → warnings (run fl outs s).1 ≡ spells (was_failing s) outs
  unfolding run
  warnings-run [] s = refl
  warnings-run (out ∷ outs) s =
      warnings-append (poll fl out s).1 (run fl outs (poll fl out s).0).1
      ∙ omega (
        arith,
        poll-warnings out s,
        warnings-run outs (poll fl out s).0 ∙ ap (λ (b : Bool). spells b outs) (poll-failing out s),
      )

  -- After any polls the gauges show the last output by itself: a reading that failed, or had no
  -- statistics, leaves no utilisation and no memory in use, and one without memory leaves none.
  pub run-Shows :
      (outs : List (Option Bytes)) (out : Option Bytes) (s : AppleSampler fl)
      → Shows (stats_of out) (run fl (outs ++ out ∷ []) s).0
  unfolding run
  run-Shows [] out s =
      subst (λ (t : AppleSampler fl). Shows (stats_of out) t)
        (sym (ap (λ (r : AppleSampler fl × List Level × Bool). r.0) (poll_lem out s)))
        (poll_stats-Shows (stats_of out) s)
  run-Shows (o ∷ outs) out s = run-Shows outs out (poll fl o s).0
