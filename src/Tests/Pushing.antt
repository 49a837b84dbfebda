-- ===== src/Tests/Pushing.antt =====
-- From a configuration file to runs of the pusher, at concrete inputs.
use ollama_exporter.Base.{
  length, All, pos, Bytes, codes, ℕ, ◌+◌, ◌≡◌, refl, inl, Bool, true, Option, none, some, List, [],
  ◌∷◌,
}
use ollama_exporter.Base.Results.{ok}
use ollama_exporter.Config.Load.{contents}
use ollama_exporter.Config.Model.{empty_remote_write}
use ollama_exporter.RemoteWrite.Queue.{CtxErr, canceled}
use ollama_exporter.RemoteWrite.Build.{Pusher, Sender, new_sender}
use ollama_exporter.RemoteWrite.Build.Ready.{IsFresh, HasFiles, new_queue-IsFresh}
use ollama_exporter.RemoteWrite.Pusher.{Event, tick, sender_takes, Feed, run_pusher}
use ollama_exporter.RemoteWrite.Pusher.Deliver.{
  HasAccepted, gathered_in, ticked, run_pusher_delivers,
}
use ollama_exporter.Exporter.{to_build_spec, build_pusher}
use ollama_exporter.Exporter.Runs.{IsSound, loaded_runs}
use ollama_exporter.Tests.Configs.{text, entry_of_text, config_of_text, scaled, accepts, text_loads}

abbrev no_file : Bytes → Option Bytes
no_file path = none

abbrev all_certs : Bytes → Bool
all_certs pem = true

files : HasFiles no_file all_certs (to_build_spec entry_of_text)
unfolding empty_remote_write
files = record {
  token = unfold to_build_spec in inl refl;
  pass = unfold to_build_spec in inl refl;
  certs = unfold to_build_spec in inl refl;
}

loaded_runs_example :
    (p : Pusher ℕ) × (s : Sender ℕ) × (build_pusher no_file all_certs config_of_text.remote_write
      ≡ ok (some p))
    × IsSound entry_of_text p s
    × ((first : Option (List ℕ)) (events : List (Event ℕ)) (draining : List (ℕ × Option CtxErr))
        → (feed : Feed ℕ) × (run_pusher p first events draining ≡ feed ∷ [])
          × HasAccepted true (gathered_in first + ticked events) feed)
loaded_runs_example =
    loaded_runs scaled accepts no_file all_certs (contents text) [] (codes ":1") config_of_text
      entry_of_text [] text_loads refl files

-- Two senders with room for a batch each.
abbrev sender : Sender ℕ
sender =
    new_sender (record (to_build_spec entry_of_text) { capacity = pos 1 })
      (record { headers = []; basic_auth_user = []; basic_auth_pass = []; bearer_token = [] })
      (record { timeout = pos 1; insecure_skip_verify = true; root_cas = none })

abbrev pair : Pusher ℕ
pair = record {
  interval = pos 1;
  has_gatherer = true;
  ext_lbls = [];
  senders = sender ∷ sender ∷ [];
  drain_timeout = pos 1;
}

-- Three flushes, one of them failed; the first sender takes a batch, and one is dropped of the other.
abbrev events : List (Event ℕ)
events = sender_takes 0 none ∷ tick none ∷ tick (some (3 ∷ [])) ∷ []

run_pusher_delivers_example :
    (length (run_pusher pair (some (1 ∷ 2 ∷ [])) events ((1, some canceled) ∷ []))
      ≡ length pair.senders)
    × All
        (HasAccepted true (gathered_in {A = ℕ} (some (1 ∷ 2 ∷ [])) + ticked events))
        (run_pusher pair (some (1 ∷ 2 ∷ [])) events ((1, some canceled) ∷ []))
run_pusher_delivers_example =
    run_pusher_delivers pair (some (1 ∷ 2 ∷ [])) events ((1, some canceled) ∷ []) refl
      (sender-IsFresh, (sender-IsFresh, tt))
  where
    sender-IsFresh : IsFresh sender.queue
    sender-IsFresh = unfold new_sender in new_queue-IsFresh _
