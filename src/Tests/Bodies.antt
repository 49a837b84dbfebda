-- ===== src/Tests/Bodies.antt =====
-- The body of a request in three chunks, its EOF with the last one.
use ollama_exporter.Base.{length, codes, ℕ, ◌≤◌, ◌≡◌, refl, true, false, List, [], ◌∷◌, ◌++◌}
use ollama_exporter.Collector.Proxy.RequestBody.{Source, eof, prefix_limit, forward, wrap_body}
use ollama_exporter.Collector.Proxy.RequestBody.Reads.{joined}
use ollama_exporter.Collector.Proxy.RequestBody.Forwarded.{IsNew, forward-wrap_body}

abbrev inbound : Source
inbound = record {
  chunks = codes "{\"mod" ∷ codes "el\":\"q" ∷ codes "wen\"}" ∷ [];
  ending = eof;
  together = true;
  ended = false;
  late_reads = 0;
}

-- The handler's buffers end in the middle of a chunk.
abbrev handler_reads : List ℕ
handler_reads = 3 ∷ 512 ∷ []

abbrev transport_reads : List ℕ
transport_reads = 4 ∷ 4 ∷ 100 ∷ 100 ∷ 100 ∷ []

inbound-IsNew : IsNew inbound
inbound-IsNew = record { not_ended = refl; no_late = refl }

forward-wrap_body_example :
    let (out, b) = forward transport_reads (wrap_body handler_reads inbound) [] in
    (length (wrap_body handler_reads inbound).prefix ≤ prefix_limit)
    × (out ++ (b.prefix ++ joined b.body.reader.chunks) ≡ joined inbound.chunks)
    × (b.finished ≡ true → out ≡ joined inbound.chunks)
    × (b.body.reader.late_reads ≡ 0)
forward-wrap_body_example = forward-wrap_body handler_reads transport_reads inbound inbound-IsNew

-- All of it has come through.
all_forwarded :
    (forward transport_reads (wrap_body handler_reads inbound) []).0 ≡ joined inbound.chunks
unfolding forward wrap_body joined
all_forwarded = refl
