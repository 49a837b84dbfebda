-- ===== src/Collector/Proxy/RequestBody/Forwarded.antt =====
-- The reads of a request's body against the bytes that came in.
use ollama_exporter.Base.{
  leb, ◌==◌, if◌then◌else◌, length, take, drop, append-take-drop, length-append, Bytes, ℕ, ◌+◌, ◌-◌,
  ◌≤◌, inl, inr, Bool-cases, ◌≡◌, refl, sym, ap, ◌∙◌, subst, true, false, Option, none, some, List,
  [], ◌∷◌, ◌++◌, append-nil, append_assoc, arith,
}
use ollama_exporter.Collector.Proxy.RequestBody.{
  End, eof, broken, Source, ReadBy, EofReader, ReadAll, read_on, eof_read, limited_read, read_all,
  prefix_limit, PrefixBody, read_parts, prefix_read, forward, wrap_body,
}
use ollama_exporter.Collector.Proxy.RequestBody.Reads.{joined, IsSafe, Next, eof_read-Next}

module _ (all : Bytes) where
  -- Some bytes, and those that the reader still has behind them, are all.
  abbrev Holds : Bytes → EofReader → Type 0
  Holds got r = IsSafe r × (got ++ joined r.reader.chunks ≡ all)

  Next-Holds :
      (k : ℕ) (got : Bytes) (r : EofReader)
      → Holds got r
      → (read : ReadBy EofReader) → Next k (joined r.reader.chunks) read
      → Holds (got ++ read.0) read.2
  Next-Holds k got r (h, e) (bs, er, t) (safe, q, le, f) =
      (safe, append_assoc got bs (joined t.reader.chunks) ∙ ap (λ (b : Bytes). got ++ b) q ∙ e)

  -- A limited read gives as many bytes as it takes off the limit.
  Limited : ℕ → Bytes → Bytes × Option End × ℕ × EofReader → Type 0
  Limited n got (bs, e, m, r) = Holds (got ++ bs) r × (length bs + m ≡ n)

  limited_read-Limited :
      (k n : ℕ) (r : EofReader) (got : Bytes) → Holds got r → Limited n got (limited_read k n r)
  unfolding Limited
  limited_read-Limited k n r got h = elim (Bool-cases (n == 0)) [
    | inl e ↦
        subst (Limited n got) (sym (stopped e))
          (subst (λ (b : Bytes). Holds b r) (sym (append-nil got)) h, omega arith)
    | inr e ↦
        subst (Limited n got) (sym (goes e))
          (Next-Holds k' got r h read next, ground (arith, next.2))
  ]
    where
      k' : ℕ
      k' = if leb k n then k else n

      read : ReadBy EofReader
      read = eof_read k' r

      next : Next k' (joined r.reader.chunks) read
      next = eof_read-Next k' r h.0

      stopped : (n == 0) ≡ true → limited_read k n r ≡ ([], some eof, n, r)
      stopped e = unfold limited_read in rw e

      goes : (n == 0) ≡ false → limited_read k n r ≡ (read.0, read.1, n - length read.0, read.2)
      goes e = unfold limited_read in rw e

  unfoldable Kept : ℕ → Bytes → ReadAll → Type 0
  Kept n got (bytes, failed, r) = Holds bytes r × (length bytes ≤ length got + n)

  read_on-Kept :
      (n : ℕ) (later : ℕ → EofReader → Bytes → ReadAll) (got : Bytes)
      (read : Bytes × Option End × ℕ × EofReader)
      → ((m : ℕ) (t : EofReader) (more : Bytes) → Holds more t → Kept m more (later m t more))
      → Limited n got read
      → Kept n got (read_on later got read)
  unfolding read_on Limited Kept
  read_on-Kept n later got (bs, none, m, r) ih (h, e) =
      let (k, le) = ih m r (got ++ bs) h in (k, omega (arith, le, e, length-append got bs))
  read_on-Kept n later got (bs, some eof, m, r) ih (h, e) =
      (h, omega (arith, e, length-append got bs))
  read_on-Kept n later got (bs, some broken, m, r) ih (h, e) =
      (h, omega (arith, e, length-append got bs))

  -- What ReadAll keeps of a limited reader is no longer than the limit, and with the rest it is all.
  read_all-Kept :
      (ks : List ℕ) (n : ℕ) (r : EofReader) (got : Bytes)
      → Holds got r
      → Kept n got (read_all ks n r got)
  unfolding read_all Kept
  read_all-Kept [] n r got h = (h, omega arith)
  read_all-Kept (k ∷ ks) n r got h =
      read_on-Kept n (read_all ks) got (limited_read k n r) (read_all-Kept ks)
        (limited_read-Limited k n r got h)

  -- What a wrapped body still has, behind what it gave: once it is finished that is nothing.
  HasLeft : Bytes → PrefixBody → Type 0
  HasLeft out b =
      IsSafe b.body
      × (out ++ (b.prefix ++ joined b.body.reader.chunks) ≡ all)
      × (b.finished ≡ true → out ≡ all)

  read_parts-HasLeft :
      (k : ℕ) (p : Bytes) (r : EofReader) (out : Bytes)
      → IsSafe r
      → out ++ (p ++ joined r.reader.chunks) ≡ all
      → HasLeft (out ++ (read_parts k p r).0) (read_parts k p r).2
  unfolding read_parts HasLeft
  read_parts-HasLeft k (c ∷ cs) r out s e = (
    s,
    append_assoc out (take k (c ∷ cs)) (drop k (c ∷ cs) ++ joined r.reader.chunks)
        ∙ ap (λ (t : Bytes). out ++ t)
            (sym (append_assoc (take k (c ∷ cs)) (drop k (c ∷ cs)) (joined r.reader.chunks))
              ∙ ap (λ (t : Bytes). t ++ joined r.reader.chunks) (append-take-drop k (c ∷ cs)))
        ∙ e,
    λ q. cc q,
  )
  read_parts-HasLeft k [] r out s e =
      let (safe, q, le, f) = eof_read-Next k r s in
      let whole : (out ++ (eof_read k r).0) ++ joined (eof_read k r).2.reader.chunks ≡ all =
        append_assoc out (eof_read k r).0 (joined (eof_read k r).2.reader.chunks)
        ∙ ap (λ (t : Bytes). out ++ t) q
        ∙ e in
      (
        safe,
        whole,
        λ d.
            sym (append-nil (out ++ (eof_read k r).0))
            ∙ ap (λ (t : Bytes). (out ++ (eof_read k r).0) ++ t) (sym (safe.empty (sym f ∙ d)))
            ∙ whole,
      )

  prefix_read-HasLeft :
      (k : ℕ) (b : PrefixBody) (out : Bytes)
      → HasLeft out b
      → HasLeft (out ++ (prefix_read k b).0) (prefix_read k b).2
  prefix_read-HasLeft k b out h = elim (Bool-cases b.finished) [
    | inl e ↦
        subst Left (sym (stopped e)) (subst (λ (t : Bytes). HasLeft t b) (sym (append-nil out)) h)
    | inr e ↦
        subst Left (sym (reads e))
          (read_parts-HasLeft k b.prefix b.body out (unfold HasLeft in h.0) (unfold HasLeft in h.1))
  ]
    where
      Left : ReadBy PrefixBody → Type 0
      Left r = HasLeft (out ++ r.0) r.2

      stopped : b.finished ≡ true → prefix_read k b ≡ ([], some eof, b)
      stopped e = unfold prefix_read in rw e

      reads : b.finished ≡ false → prefix_read k b ≡ read_parts k b.prefix b.body
      reads e = unfold prefix_read in rw e

  forward-HasLeft :
      (ks : List ℕ) (b : PrefixBody) (out : Bytes)
      → HasLeft out b
      → HasLeft (forward ks b out).0 (forward ks b out).1
  unfolding forward
  forward-HasLeft [] b out h = h
  forward-HasLeft (k ∷ ks) b out h =
      forward-HasLeft ks (prefix_read k b).2 (out ++ (prefix_read k b).0)
        (prefix_read-HasLeft k b out h)

-- The body of a request that nothing has read.
pub record IsNew (s : Source) : Type 0 where
  pub not_ended : s.ended ≡ false
  pub no_late : s.late_reads ≡ 0

-- Whatever buffers the handler and the transport read a new body with, and however the body is cut
-- into chunks: the handler keeps 64 KiB of it at most; the transport gets its bytes in order, each
-- once, those that it has and those still to come being all; once it is told of the end it has them
-- all; and the inbound body is never read again behind its EOF.
pub forward-wrap_body :
    (ks js : List ℕ) (s : Source)
    → IsNew s
    → let (out, b) = forward js (wrap_body ks s) [] in
      (length (wrap_body ks s).prefix ≤ prefix_limit)
      × (out ++ (b.prefix ++ joined b.body.reader.chunks) ≡ joined s.chunks)
      × (b.finished ≡ true → out ≡ joined s.chunks)
      × (b.body.reader.late_reads ≡ 0)
unfolding wrap_body
forward-wrap_body ks js s new =
    let all = joined s.chunks in
    let fresh : EofReader = record { reader = s; eof = false } in
    let safe : IsSafe fresh = record {
      no_late = new.no_late;
      known = new.not_ended;
      empty = λ e. cc e;
    } in
    let read : ReadAll = read_all ks prefix_limit fresh [] in
    let kept : Holds all read.0 read.2 × (length read.0 ≤ 0 + prefix_limit) =
      unfold Kept in read_all-Kept all ks prefix_limit fresh [] (safe, refl) in
    let started : HasLeft all [] (wrap_body ks s) =
      unfold HasLeft in (kept.0.0, kept.0.1, λ e. cc e) in
    let end = forward-HasLeft all js (wrap_body ks s) [] started in
    (
      omega (arith, kept.1),
      unfold HasLeft in end.1,
      unfold HasLeft in end.2,
      unfold HasLeft in end.0.no_late,
    )
