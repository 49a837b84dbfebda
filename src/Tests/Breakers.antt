-- ===== src/Tests/Breakers.antt =====
-- internal/remotewrite/breaker.go with a threshold of three failures in ten nanoseconds.
use ollama_exporter.Base.{◌-ℤ◌, ℤ, pos, ◌≡◌, refl, true, List, [], ◌∷◌, arith, ◌↔◌}
use ollama_exporter.RemoteWrite.Breaker.{breaker_closed, breaker_open, breaker_half_open, Breaker}
use ollama_exporter.RemoteWrite.Breaker.Steps.{allows, apply, Edge, apply-Edge}
use ollama_exporter.RemoteWrite.Breaker.Sliding.{opens, reached, recent, opens_sliding}

abbrev fresh : Breaker
fresh = record {
  failure_threshold = pos 3;
  window = pos 10;
  cooldown = pos 30;
  state = breaker_closed;
  failures = [];
  opened_at = pos 0;
}

abbrev tripped : Breaker
tripped = record fresh { state = breaker_open; opened_at = pos 100 }

abbrev probing : Breaker
probing = record fresh { state = breaker_half_open; opened_at = pos 100 }

apply-Edge_example :
    Edge (allows (pos 130)) tripped probing ↔ ((apply (allows (pos 130)) tripped).0 ≡ probing)
apply-Edge_example = apply-Edge (allows (pos 130)) tripped probing

-- The first failure is too old for the third, and the fourth opens the breaker.
abbrev failure_times : List ℤ
failure_times = pos 1 ∷ pos 8 ∷ pos 12 ∷ pos 13 ∷ []

opens_sliding_example : opens fresh failure_times ≡ reached (pos 3) (pos 10) [] failure_times
opens_sliding_example =
    opens_sliding fresh (pos 0) failure_times refl refl (omega arith)
      (omega arith, (omega arith, (omega arith, (omega arith, tt))))

reached-true : reached (pos 3) (pos 10) [] failure_times ≡ true
unfolding reached recent ◌-ℤ◌
reached-true = refl
