-- ===== src/Collector/Proxy/RequestBody/Reads.antt =====
-- One read of an eofReader.
use ollama_exporter.Base.{
  leb, length, take, drop, append-take-drop, length-take_le, Bytes, ℕ, ◌≤◌, inl, inr, Bool-cases,
  ◌≡◌, refl, sym, ap, ◌∙◌, subst, true, false, some, List, [], ◌∷◌, ◌++◌, append_assoc, arith,
}
use ollama_exporter.Collector.Proxy.RequestBody.{
  eof, is_eof, Source, ReadBy, read_end, read_last, read_whole, read_chunk, EofReader, eof_read,
}

-- The bytes that a reader still has.
unfoldable pub joined : List Bytes → Bytes
joined [] = []
joined (c ∷ cs) = c ++ joined cs

-- Nothing was read behind an EOF, and the flag knows of one, behind which there is nothing.
pub record IsSafe (r : EofReader) : Type 0 where
  pub no_late : r.reader.late_reads ≡ 0
  pub known : r.reader.ended ≡ r.eof
  pub empty : r.eof ≡ true → joined r.reader.chunks ≡ []

-- A read gives the next bytes.
abbrev pub Next : ℕ → Bytes → ReadBy EofReader → Type 0
Next k all (bs, e, r) =
    IsSafe r × (bs ++ joined r.reader.chunks ≡ all) × (length bs ≤ k) × (is_eof e ≡ r.eof)

-- The reader behind a read of its source.
abbrev behind : ReadBy Source → ReadBy EofReader
behind (bs, e, s) = (bs, e, record { reader = s; eof = is_eof e })

module _ (k : ℕ) (s : Source) (l : s.late_reads ≡ 0) (n : s.ended ≡ false) where
  read_end-Next : Next k [] (behind (read_end s))
  unfolding read_end joined
  read_end-Next = (
    record { no_late = ground arith; known = ground arith; empty = λ e. refl },
    refl,
    omega arith,
    refl,
  )

  read_last-Next : (c : Bytes) → length c ≤ k → Next k (c ++ []) (behind (read_last c s))
  unfolding read_last joined
  read_last-Next c h = (
    record { no_late = ground arith; known = ground arith; empty = ground arith },
    ground arith,
    ground arith,
    refl,
  )

  read_whole-Next :
      (c : Bytes) (cs : List Bytes)
      → length c ≤ k
      → Next k (c ++ joined cs) (behind (read_whole c cs s))
  unfolding read_whole joined
  read_whole-Next c [] h = read_last-Next c h
  read_whole-Next c (d ∷ cs) h =
      (record { no_late = l; known = n; empty = λ e. cc e }, refl, h, refl)

  read_chunk-Next : (cs : List Bytes) → Next k (joined cs) (behind (read_chunk k cs s))
  unfolding read_chunk read_whole joined
  read_chunk-Next [] = read_end-Next
  read_chunk-Next (c ∷ cs) = elim (Bool-cases (leb (length c) k)) [
    | inl h ↦ rw h (read_whole-Next c cs (ground arith))
    | inr h ↦ rw h (
      record { no_late = l; known = n; empty = λ e. cc e },
      sym (append_assoc (take k c) (drop k c) (joined cs))
          ∙ ap (λ (t : Bytes). t ++ joined cs) (append-take-drop k c),
      length-take_le k c,
      refl,
    )
  ]

-- A read of an eofReader is safe, and gives the next bytes; behind its EOF it reads nothing.
pub eof_read-Next :
    (k : ℕ) (r : EofReader) → IsSafe r → Next k (joined r.reader.chunks) (eof_read k r)
eof_read-Next k r h = elim (Bool-cases r.eof) [
  | inl e ↦ subst (Next k (joined r.reader.chunks)) (sym (ended e)) (h, refl, omega arith, sym e)
  | inr e ↦
      subst (Next k (joined r.reader.chunks)) (sym (reads e))
        (read_chunk-Next k r.reader h.no_late (h.known ∙ e) r.reader.chunks)
]
  where
    ended : r.eof ≡ true → eof_read k r ≡ ([], some eof, r)
    ended e = unfold eof_read in rw e

    reads : r.eof ≡ false → eof_read k r ≡ behind (read_chunk k r.reader.chunks r.reader)
    reads e = unfold eof_read in rw e
