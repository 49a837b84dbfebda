-- ===== src/Collector/JsonFields/Grammar/Sound.antt =====
-- Nothing but a number or a literal is accepted, and the same of the tokens of a recogniser.
use ollama_exporter.Base.{
  ◌==◌, Bool-cases, Option-cases, Bytes, codes, ℕ, ◌≡◌, refl, sym, ap, ◌∙◌, subst, ◌↔◌, ◌⊎◌, inl,
  inr, true, false, ◌||◌, some, [], ◌∷◌, ◌++◌, arith,
}
use ollama_exporter.Collector.JsonFields.{
  JsonFields, push, scalar_push, minus, zero_digit, int_digits, point, frac_digits, exp_mark,
  exp_sign, exp_digits, Scalar, no_scalar, number, literal, next_place, next_scalar, first_scalar,
  scalar_byte, scalar_bad, scalar_complete,
}
use ollama_exporter.Collector.JsonFields.Grammar.{
  scan, AreDigits, IsSign, IsExp, no_exp, exp, IsTail, no_frac, frac, IsUnsigned, only_zero, digits,
  IsNumber, unsigned, negative, scan_step, scan-number,
}

-- What is accepted from a place is what may follow there.
abbrev pub MarkRest : Bytes → Type 0
MarkRest s =
    (sign : Bytes) × (d : ℕ) × (ds : Bytes) × IsSign sign
    × AreDigits (d ∷ ds)
    × (s ≡ sign ++ d ∷ ds)

sound-exp_digits : (s : Bytes) → scan (number exp_digits) s ≡ true → AreDigits s
unfolding next_place
sound-exp_digits [] h = tt
sound-exp_digits (c ∷ cs) h = ground (arith, scan_step exp_digits c cs, sound-exp_digits cs)

sound-exp_sign :
    (s : Bytes)
    → scan (number exp_sign) s ≡ true
    → (d : ℕ) × (ds : Bytes) × AreDigits (d ∷ ds) × (s ≡ d ∷ ds)
unfolding next_place scan scalar_complete
sound-exp_sign [] h = cc
sound-exp_sign (c ∷ cs) h = (
  c,
  cs,
  (
    ground (arith, scan_step exp_sign c cs),
    sound-exp_digits cs (ground (arith, scan_step exp_sign c cs)),
  ),
  refl,
)

sound-exp_mark : (s : Bytes) → scan (number exp_mark) s ≡ true → MarkRest s
unfolding next_place scan scalar_complete
sound-exp_mark [] h = cc
sound-exp_mark (c ∷ cs) h = elim (Bool-cases (c == b'+' || c == b'-')) [
  | inl e ↦
      let (d, ds, a, q) = sound-exp_sign cs (ground (arith, scan_step exp_mark c cs)) in
      (c ∷ [], d, ds, ground arith, a, ap (◌∷◌ c) q)
  | inr e ↦ (
    [],
    c,
    cs,
    inl refl,
    (
      ground (arith, scan_step exp_mark c cs),
      sound-exp_digits cs (ground (arith, scan_step exp_mark c cs)),
    ),
    refl,
  )
]

-- Behind a mark of an exponent.
IsExp-mark : (mark : ℕ) (s : Bytes) → (mark ≡ b'e') ⊎ (mark ≡ b'E') → MarkRest s → IsExp (mark ∷ s)
IsExp-mark mark s m (sign, d, ds, g, a, q) =
    subst (λ t. IsExp (mark ∷ t)) (sym q) (exp mark sign d ds m g a)

sound-frac_digits :
    (s : Bytes)
    → scan (number frac_digits) s ≡ true
    → (ds : Bytes) × (x : Bytes) × AreDigits ds × IsExp x × (s ≡ ds ++ x)
unfolding next_place scan
sound-frac_digits [] h = ([], [], tt, no_exp, refl)
sound-frac_digits (c ∷ cs) h = elim (Bool-cases (c == b'e' || c == b'E')) [
  | inl e ↦ (
    [],
    c ∷ cs,
    tt,
    IsExp-mark c cs (ground arith) (sound-exp_mark cs (ground (arith, scan_step frac_digits c cs))),
    refl,
  )
  | inr e ↦
      let (ds, x, a, w, q) = sound-frac_digits cs (ground (arith, scan_step frac_digits c cs)) in
      (c ∷ ds, x, (ground (arith, scan_step frac_digits c cs), a), w, ap (◌∷◌ c) q)
]

sound-point : (s : Bytes) → scan (number point) s ≡ true → IsTail (b'.' ∷ s)
unfolding next_place scan scalar_complete
sound-point [] h = cc
sound-point (c ∷ cs) h =
    let (ds, x, a, w, q) = sound-frac_digits cs (ground (arith, scan_step point c cs)) in
    subst (λ t. IsTail (b'.' ∷ c ∷ t)) (sym q)
      (frac c ds x (ground (arith, scan_step point c cs), a) w)

sound-zero_digit : (s : Bytes) → scan (number zero_digit) s ≡ true → IsTail s
unfolding next_place scan
sound-zero_digit [] h = no_frac no_exp
sound-zero_digit (c ∷ cs) h = elim (Bool-cases (c == b'.')) [
  | inl e ↦
      let is_point : b'.' ≡ c = ground arith in
      subst (λ x. IsTail (x ∷ cs)) is_point
        (sound-point cs (ground (arith, scan_step zero_digit c cs)))
  | inr e ↦ no_frac (
      IsExp-mark c cs (ground (arith, scan_step zero_digit c cs))
        (sound-exp_mark cs (ground (arith, scan_step zero_digit c cs))))
]

sound-int_digits :
    (s : Bytes)
    → scan (number int_digits) s ≡ true
    → (ds : Bytes) × (t : Bytes) × AreDigits ds × IsTail t × (s ≡ ds ++ t)
unfolding next_place scan
sound-int_digits [] h = ([], [], tt, no_frac no_exp, refl)
sound-int_digits (c ∷ cs) h = elim (Bool-cases (c == b'.')) [
  | inl e ↦
      let is_point : b'.' ≡ c = ground arith in
      (
        [],
        c ∷ cs,
        tt,
        subst (λ x. IsTail (x ∷ cs)) is_point
            (sound-point cs (ground (arith, scan_step int_digits c cs))),
        refl,
      )
  | inr f ↦ elim (Bool-cases (c == b'e' || c == b'E')) [
    | inl e ↦ (
      [],
      c ∷ cs,
      tt,
      no_frac (
          IsExp-mark c cs (ground arith)
            (sound-exp_mark cs (ground (arith, scan_step int_digits c cs)))),
      refl,
    )
    | inr e ↦
        let (ds, t, a, w, q) = sound-int_digits cs (ground (arith, scan_step int_digits c cs)) in
        (c ∷ ds, t, (ground (arith, scan_step int_digits c cs), a), w, ap (◌∷◌ c) q)
  ]
]

sound-minus : (s : Bytes) → scan (number minus) s ≡ true → IsUnsigned s
unfolding next_place scan scalar_complete
sound-minus [] h = cc
sound-minus (c ∷ cs) h = elim (Bool-cases (c == b'0')) [
  | inl e ↦
      let is_zero : b'0' ≡ c = ground arith in
      subst (λ x. IsUnsigned (x ∷ cs)) is_zero
        (only_zero (sound-zero_digit cs (ground (arith, scan_step minus c cs))))
  | inr e ↦
      let (ds, t, a, w, q) = sound-int_digits cs (ground (arith, scan_step minus c cs)) in
      subst (λ x. IsUnsigned (c ∷ x)) (sym q)
        (digits c ds t (ground (arith, scan_step minus c cs), a) (ground arith) w)
]

-- The three literals.
abbrev pub IsLiteral : Bytes → Type 0
IsLiteral s = (s ≡ codes "true") ⊎ ((s ≡ codes "false") ⊎ (s ≡ codes "null"))

scan-literal : (s : Bytes) → IsLiteral s → scan no_scalar s ≡ true
unfolding scan scalar_byte scalar_bad next_scalar first_scalar scalar_complete
scan-literal s (inl e) = rw e refl
scan-literal s (inr (inl e)) = rw e refl
scan-literal s (inr (inr e)) = rw e refl

sound-literal : (l s : Bytes) → scan (literal l) s ≡ true → s ≡ l
unfolding scan scalar_byte scalar_bad next_scalar scalar_complete
sound-literal [] [] h = refl
sound-literal [] (c ∷ cs) h = cc
sound-literal (x ∷ l) [] h = cc
sound-literal (x ∷ l) (c ∷ cs) h = ground (arith, sound-literal l cs)

sound-first :
    (c : ℕ) (cs : Bytes) (t : Scalar)
    → first_scalar c ≡ some t
    → scan t cs ≡ true
    → IsNumber (c ∷ cs) ⊎ IsLiteral (c ∷ cs)
unfolding first_scalar
sound-first c cs no_scalar e h = absurd (ground arith)
sound-first c cs (literal l) e h = let same : cs ≡ l = sound-literal l cs h in inr (ground arith)
sound-first c cs (number minus) e h =
    let is_minus : b'-' ≡ c = ground arith in
    inl (subst (λ x. IsNumber (x ∷ cs)) is_minus (negative (sound-minus cs h)))
sound-first c cs (number zero_digit) e h =
    let is_zero : b'0' ≡ c = ground arith in
    inl (unsigned (subst (λ x. IsUnsigned (x ∷ cs)) is_zero (only_zero (sound-zero_digit cs h))))
sound-first c cs (number int_digits) e h =
    let (ds, t, a, w, q) = sound-int_digits cs h in
    inl (
      unsigned (
        subst (λ x. IsUnsigned (c ∷ x)) (sym q) (digits c ds t (ground arith, a) (ground arith) w)))
sound-first c cs (number _) e h = absurd (ground arith)

first_step :
    (c : ℕ) (cs : Bytes)
    → scan no_scalar (c ∷ cs) ≡ true
    → (t : Scalar) × (first_scalar c ≡ some t) × (scan t cs ≡ true)
unfolding scan scalar_byte scalar_bad next_scalar
first_step c cs h = elim (Option-cases (first_scalar c)) [
  | inl e ↦ absurd (ground arith)
  | inr (t, e) ↦ (t, e, ground arith)
]

scan_iff : (s : Bytes) → (scan no_scalar s ≡ true) ↔ (IsNumber s ⊎ IsLiteral s)
scan_iff s = (sound s, complete)
  where
    sound : (t : Bytes) → scan no_scalar t ≡ true → IsNumber t ⊎ IsLiteral t
    sound [] h = unfold scan scalar_complete in cc
    sound (c ∷ cs) h = let (t, e, k) = first_step c cs h in sound-first c cs t e k

    complete : IsNumber s ⊎ IsLiteral s → scan no_scalar s ≡ true
    complete (inl n) = scan-number n
    complete (inr l) = scan-literal s l

-- The bytes of a token that is not a string, as `byte` takes them.
unfoldable pub pushes : Bytes → JsonFields → JsonFields
pushes [] j = j
pushes (c ∷ cs) j = pushes cs (scalar_push c j)

abbrev pub IsComplete : JsonFields → Type 0
IsComplete j = (j.bad ≡ false) × (scalar_complete j.scalar ≡ true)

scalar_push_lem :
    (c : ℕ) (j : JsonFields)
    → ((scalar_push c j).scalar ≡ scalar_byte c j.scalar)
      × ((scalar_push c j).bad ≡ (j.bad || scalar_bad c j.scalar))
unfolding scalar_push push
scalar_push_lem c j = ground arith

pushes_lem :
    (s : Bytes) (j : JsonFields)
    → IsComplete (pushes s j) ↔ ((j.bad ≡ false) × (scan j.scalar s ≡ true))
unfolding pushes scan
pushes_lem [] j = ground arith
pushes_lem (c ∷ cs) j = ground (
  arith,
  scalar_push_lem c j,
  pushes_lem cs (scalar_push c j),
  ap (λ t. scan t cs) (scalar_push_lem c j).0,
)

-- A token that is not a string is taken without an error, and is complete at its end, exactly if it
-- is a number of RFC 8259 or one of the literals `true`, `false` and `null`, however long it is.
pub pushes_iff :
    (s : Bytes) (j : JsonFields)
    → j.bad ≡ false
    → j.scalar ≡ no_scalar
    → IsComplete (pushes s j) ↔ (IsNumber s ⊎ IsLiteral s)
pushes_iff s j b e =
    let there = pushes_lem s j in
    let here = scan_iff s in
    let same : scan j.scalar s ≡ scan no_scalar s = ap (λ t. scan t s) e in
    ((λ k. here.0 (sym same ∙ (there.0 k).1)), (λ n. there.1 (b, same ∙ here.1 n)))
