-- ===== src/Lib.antt =====
-- The ollama-exporter: a proxy in front of an Ollama server that reads metrics out of the responses
-- it forwards, a poller of the models that are loaded, collectors for the GPU, and a client that
-- pushes the registry to a Prometheus Remote Write endpoint.
--
-- Config (internal/config). `Load` reads a file of a YAML subset into a tree (Yaml, yaml.go: one line
-- at a time with a stack of open nodes), writes the tree over the defaults (Apply, config.go:
-- `applyTree` and the functions it calls), then the environment, and validates the result (Load).
-- Yaml/Printed.antt has the documents and their text, and Valid.antt says what a valid configuration
-- is. A frame of the parser's stack holds its node, which the source reaches by a pointer, and the way
-- it hangs below the frame under it.
--
-- RemoteWrite (internal/remotewrite). Build (build.go) makes a pusher with the sender of an endpoint
-- of the configuration. A flush of the pusher (Pusher, pusher.go) turns the registry into series
-- (Convert, convert.go: `Gather`, `mergeLabels`) and puts them into the ring of each endpoint (Queue,
-- queue.go). The sender of an endpoint (Sender, sender.go: `processBatch`, `computeBackoff`) takes
-- batches out of it, asks its circuit breaker (Breaker, breaker.go) and posts them (Wire, wire.go and
-- errors.go), again and again within a budget. Queue/Fifo.antt is the abstract queue that the ring
-- implements; Queue/Waiters.antt has the condition variable with its sleepers as a step relation. A
-- run of the pusher is a sequence of ticks and of calls by the senders, in any order. Metrics
-- (metrics.go) has what the observers do to the series of an endpoint, and Metrics/Flow.antt the
-- endpoint as build.go wires it, with the goroutines' steps and the observers' calls in any order.
--
-- Collector (internal/collector). The proxy wraps a response body in an observer (ResponseBody,
-- responsebody.go), which feeds what passes to a recogniser of JSON (JsonFields, streamjson.go) and
-- calls out when the body ends; what a request and a response add to the metrics is Proxy (proxy.go
-- and usage.go, with Proxy/Counted.antt and Proxy/Measured.antt as descriptions of it that are
-- independent of the code), and Proxy/RequestBody.antt has the readers that hand a request's body on.
-- The metadata of models is cached (ModelCache, modelcache.go; ModelCache/History.antt has the halves
-- of its `Get`s in any order), and the poller (Poller, poller.go) counts loads and unloads from one
-- scrape to the next.
--
-- Gpu (internal/gpu). Apple has the statistics in the output of ioreg and the sampler that polls them
-- (ioreg.go, applepoll.go, applegpu.go); Amd has the devices under sysfs and a poll of their metrics
-- (amdgpu.go).
--
-- Exporter (cmd/exporter/main.go: `buildPusher`) joins Config and RemoteWrite.
--
-- Go (strconv, strings, time.ParseDuration, url.Parse, maps, HTTP headers) and Base (numbers, lists,
-- text, results) hold what the parts share.
--
-- A method that holds its mutex throughout is one function of the state; a method that calls an
-- observer returns the calls as a list. Times and durations are integers of nanoseconds, int64
-- arithmetic wraps (`wrap64`) or, in `time.Time.Sub`, saturates (`sat64`) as in the source; times
-- themselves are far inside the range of `time.Time`. The clock, the network, the file system, the
-- random source, encoding/json, protobuf, snappy, x509 and float64 are outside: their answers are
-- arguments. Among them `scaled` is the float64 step of a fraction in a duration, `accepts` is what
-- url.Parse asks of a text besides its scheme, `read_file` and `glob` read the file system,
-- `append_certs` is the parser of certificates, and the record Float of Gpu is float64. A file of
-- configuration is read by the scanner with its bound of 1048576 bytes for a line. The loop of
-- `processBatch` is a recursion on the attempts that are left, which the source's counter bounds;
-- other loops are structural, and nothing runs on fuel.
--
-- Not modelled: the HTTP side of the proxy, the tickers, the timeout of the pusher's drain, the
-- registration of metrics (internal/metrics, newSelfMetrics, gpu.go), the construction of the
-- collectors (collector.go, NewCollector), the Ollama client, and the listeners, flags and signals of
-- cmd/exporter, most of which are input and output. Errors of the configuration are values without
-- their texts.
pub mod Base
pub mod Go
pub mod Config
pub mod RemoteWrite
pub mod Collector
pub mod Gpu
pub mod Exporter
pub mod Tests
