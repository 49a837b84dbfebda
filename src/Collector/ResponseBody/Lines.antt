-- ===== src/Collector/ResponseBody/Lines.antt =====
-- The line breaks of an event stream: the three kinds that the format allows, in any mixture.
use ollama_exporter.Base.{
  ◌==◌, if◌then◌else◌, Bytes, ℕ, ◌≡◌, refl, sym, ap, ◌∙◌, Bool, true, false, [], ◌∷◌, arith,
}
use ollama_exporter.Collector.JsonFields.{Json}
use ollama_exporter.Collector.ResponseBody.{Body, sse_byte, stream_byte, feed_body}
use ollama_exporter.Collector.ResponseBody.Quiet.{sse_byte-IsNoticing}

abbrev starts_lf : Bytes → Bool
starts_lf [] = false
starts_lf (c ∷ cs) = c == b'\n'

-- A carriage return is dropped before a line feed and is a line feed elsewhere.
unfoldable pub normalise : Bytes → Bytes
normalise [] = []
normalise (c ∷ cs) =
    let rest = normalise cs in
    if c == b'\r' then (if starts_lf cs then rest else b'\n' ∷ rest) else c ∷ rest

unfoldable pub sse_bytes : Json → Bytes → Body → Body
sse_bytes json [] b = b
sse_bytes json (c ∷ cs) b = sse_bytes json cs (sse_byte json c b)

-- A carriage return that still waits ends its line.
unfoldable pub settle : Json → Body → Body
settle json b = if b.pending_cr then sse_byte json b'\n' (record b { pending_cr = false }) else b

at_rest : (b : Body) → b.pending_cr ≡ false → record b { pending_cr = false } ≡ b
at_rest b h = ap (λ p. record b { pending_cr = p }) (sym h)

module _ (json : Json) where
  stream_rest :
      (c : ℕ) (b : Body)
      → b.pending_cr ≡ false
      → stream_byte json c b
        ≡ (if c == b'\r' then record b { pending_cr = true } else sse_byte json c b)
  unfolding stream_byte
  stream_rest c b h = ground arith

  stream_wait :
      (c : ℕ) (b : Body)
      → b.pending_cr ≡ false
      → stream_byte json c (record b { pending_cr = true })
        ≡ (if c == b'\n' then sse_byte json b'\n' b else stream_byte json c (sse_byte json b'\n' b))
  unfolding stream_byte
  stream_wait c b h = ground (arith, at_rest b h, (sse_byte-IsNoticing json b'\n' b).1)

  abbrev Settles : Bytes → Body → Bytes → Body → Type 0
  Settles bytes s text b = settle json (feed_body json true bytes s) ≡ sse_bytes json text b

  Settles-if :
      (t : Bool) (bytes : Bytes) (s s' : Body) (text text' : Bytes) (b : Body)
      → (t ≡ true → Settles bytes s text b)
      → (t ≡ false → Settles bytes s' text' b)
      → Settles bytes (if t then s else s') (if t then text else text') b
  Settles-if true bytes s s' text text' b h k = h refl
  Settles-if false bytes s s' text text' b h k = k refl

  normalise-lf :
      (c : ℕ) (cs : Bytes) → (c == b'\n') ≡ true → normalise (c ∷ cs) ≡ b'\n' ∷ normalise cs
  unfolding normalise
  normalise-lf c cs h = ground arith

  -- With no carriage return waiting, and with one.
  abbrev SettlesBoth : Bytes → Type 0
  SettlesBoth bytes =
      (b : Body)
      → b.pending_cr ≡ false
      → Settles bytes b (normalise bytes) b
        × Settles bytes (record b { pending_cr = true })
            (if starts_lf bytes then normalise bytes else b'\n' ∷ normalise bytes) b

  Settles-rest :
      (c : ℕ) (cs : Bytes) (b : Body)
      → SettlesBoth cs
      → b.pending_cr ≡ false
      → Settles (c ∷ cs) b (normalise (c ∷ cs)) b
  unfolding feed_body sse_bytes normalise
  Settles-rest c cs b ih h =
      ap (λ s. settle json (feed_body json true cs s)) (stream_rest c b h)
      ∙ Settles-if (c == b'\r') cs _ _ _ _ b (λ e. (ih b h).1)
          (λ e. (ih (sse_byte json c b) ((sse_byte-IsNoticing json c b).1 ∙ h)).0)

  Settles-wait :
      (c : ℕ) (cs : Bytes) (b : Body)
      → SettlesBoth cs
      → b.pending_cr ≡ false
      → Settles
          (c ∷ cs)
          (record b { pending_cr = true })
          (if c == b'\n' then normalise (c ∷ cs) else b'\n' ∷ normalise (c ∷ cs))
          b
  unfolding feed_body sse_bytes
  Settles-wait c cs b ih h =
      let lf_rest = (sse_byte-IsNoticing json b'\n' b).1 ∙ h in
      ap (λ s. settle json (feed_body json true cs s)) (stream_wait c b h)
      ∙ Settles-if (c == b'\n') cs _ _ _ _ b
          (λ e.
            (ih (sse_byte json b'\n' b) lf_rest).0
            ∙ ap (λ t. sse_bytes json t b) (sym (normalise-lf c cs e)))
          (λ e. Settles-rest c cs (sse_byte json b'\n' b) ih lf_rest)

  SettlesBoth-all : (bytes : Bytes) → SettlesBoth bytes
  unfolding settle feed_body sse_bytes normalise
  SettlesBoth-all [] b h = ground (arith, at_rest b h)
  SettlesBoth-all (c ∷ cs) b h =
      (Settles-rest c cs b (SettlesBoth-all cs) h, Settles-wait c cs b (SettlesBoth-all cs) h)

  -- An observer with no carriage return waiting comes to the same state by a stream whose lines end
  -- in a carriage return, a line feed or both, as by the same stream with each line break written
  -- as one line feed, once a last carriage return has been taken as a line's end.
  pub settle-feed_body :
      (bytes : Bytes) (b : Body)
      → b.pending_cr ≡ false
      → settle json (feed_body json true bytes b) ≡ sse_bytes json (normalise bytes) b
  settle-feed_body bytes b h = (SettlesBoth-all bytes b h).0
