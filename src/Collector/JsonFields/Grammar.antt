-- ===== src/Collector/JsonFields/Grammar.antt =====
-- The numbers of RFC 8259 against the places of `scalarByte`.
pub mod Sound
use ollama_exporter.Base.{
  if◌then◌else◌, All, Bytes, ℕ, ◌≡◌, refl, ◌≢◌, ◌⊎◌, Bool, true, false, Option, none, some, [], ◌∷◌,
  ◌++◌, arith,
}
use ollama_exporter.Go.Strconv.{is_digit}
use ollama_exporter.Collector.JsonFields.{
  Place, minus, zero_digit, int_digits, point, frac_digits, exp_mark, exp_sign, exp_digits, Scalar,
  no_scalar, number, next_place, next_scalar, first_scalar, scalar_byte, scalar_bad,
  scalar_complete,
}

-- Whether a token's bytes, one after the other, are accepted and leave it complete.
unfoldable pub scan : Scalar → Bytes → Bool
scan s [] = scalar_complete s
scan s (c ∷ cs) = let rest = scan (scalar_byte c s) cs in if scalar_bad c s then false else rest

abbrev pub AreDigits : Bytes → Type 0
AreDigits = All (λ c. is_digit c ≡ true)

abbrev pub IsSign : Bytes → Type 0
IsSign s = (s ≡ []) ⊎ ((s ≡ b'+' ∷ []) ⊎ (s ≡ b'-' ∷ []))

-- `[ exp ]`
pub data IsExp : Bytes → Type 0 where
  no_exp : IsExp []
  exp :
      (mark : ℕ) (sign : Bytes) (d : ℕ) (ds : Bytes)
      → (mark ≡ b'e') ⊎ (mark ≡ b'E')
      → IsSign sign
      → AreDigits (d ∷ ds)
      → IsExp (mark ∷ (sign ++ d ∷ ds))

-- `[ frac ] [ exp ]`
pub data IsTail : Bytes → Type 0 where
  no_frac : {x : Bytes} → IsExp x → IsTail x
  frac : (d : ℕ) (ds x : Bytes) → AreDigits (d ∷ ds) → IsExp x → IsTail (b'.' ∷ ((d ∷ ds) ++ x))

-- `int [ frac ] [ exp ]`
pub data IsUnsigned : Bytes → Type 0 where
  only_zero : {t : Bytes} → IsTail t → IsUnsigned (b'0' ∷ t)
  digits :
      (d : ℕ) (ds t : Bytes) → AreDigits (d ∷ ds) → d ≢ b'0' → IsTail t → IsUnsigned ((d ∷ ds) ++ t)

pub data IsNumber : Bytes → Type 0 where
  unsigned : {s : Bytes} → IsUnsigned s → IsNumber s
  negative : {s : Bytes} → IsUnsigned s → IsNumber (b'-' ∷ s)

-- One step from a place.
abbrev pub from : Option Place → Bytes → Bool
from none cs = false
from (some p) cs = scan (number p) cs

pub scan_step :
    (p : Place) (c : ℕ) (cs : Bytes) → scan (number p) (c ∷ cs) ≡ from (next_place p c) cs
unfolding scan scalar_byte scalar_bad next_scalar
scan_step p c cs = ground arith

-- Every number is accepted.
pub scan-exp_digits : (ds : Bytes) → AreDigits ds → scan (number exp_digits) ds ≡ true
unfolding scan scalar_complete next_place
scan-exp_digits [] a = refl
scan-exp_digits (d ∷ ds) (h, a) = ground (arith, scan_step exp_digits d ds, scan-exp_digits ds a)

pub scan-exp_mark :
    (sign : Bytes) (d : ℕ) (ds : Bytes)
    → IsSign sign
    → AreDigits (d ∷ ds)
    → scan (number exp_mark) (sign ++ d ∷ ds) ≡ true
unfolding next_place
scan-exp_mark [] d ds s (h, a) = ground (arith, scan_step exp_mark d ds, scan-exp_digits ds a)
scan-exp_mark (c ∷ []) d ds s (h, a) =
    ground (arith, scan_step exp_mark c (d ∷ ds), scan_step exp_sign d ds, scan-exp_digits ds a)
scan-exp_mark (c ∷ e ∷ cs) d ds s a = absurd (ground arith)

pub scan-exp :
    (p : Place) {x : Bytes}
    → scalar_complete (number p) ≡ true
    → (next_place p b'e' ≡ some exp_mark) × (next_place p b'E' ≡ some exp_mark)
    → IsExp x
    → scan (number p) x ≡ true
unfolding scan
scan-exp p h k no_exp = h
scan-exp p h k (exp mark sign d ds m s a) =
    ground (arith, scan_step p mark (sign ++ d ∷ ds), scan-exp_mark sign d ds s a)

pub scan-frac_digits :
    (ds x : Bytes) → AreDigits ds → IsExp x → scan (number frac_digits) (ds ++ x) ≡ true
unfolding next_place scalar_complete
scan-frac_digits [] x a e = scan-exp frac_digits refl (refl, refl) e
scan-frac_digits (d ∷ ds) x (h, a) e =
    ground (arith, scan_step frac_digits d (ds ++ x), scan-frac_digits ds x a e)

pub scan-tail :
    (p : Place) {t : Bytes}
    → scalar_complete (number p) ≡ true
    → (next_place p b'e' ≡ some exp_mark) × (next_place p b'E' ≡ some exp_mark)
    → next_place p b'.' ≡ some point
    → IsTail t
    → scan (number p) t ≡ true
unfolding next_place
scan-tail p h k q (no_frac e) = scan-exp p h k e
scan-tail p h k q (frac d ds x (i, a) e) = ground (
  arith,
  scan_step p b'.' (d ∷ (ds ++ x)),
  scan_step point d (ds ++ x),
  scan-frac_digits ds x a e,
)

pub scan-int_digits :
    (ds t : Bytes) → AreDigits ds → IsTail t → scan (number int_digits) (ds ++ t) ≡ true
unfolding next_place scalar_complete
scan-int_digits [] t a e = scan-tail int_digits refl (refl, refl) refl e
scan-int_digits (d ∷ ds) t (h, a) e =
    ground (arith, scan_step int_digits d (ds ++ t), scan-int_digits ds t a e)

pub scan-unsigned :
    {s : Bytes} → IsUnsigned s → (scan (number minus) s ≡ true) × (scan no_scalar s ≡ true)
unfolding next_place first_scalar next_scalar scan scalar_byte scalar_bad scalar_complete
scan-unsigned (only_zero {t} e) =
    let r = scan-tail zero_digit {t = t} refl (refl, refl) refl e in (r, r)
scan-unsigned (digits d ds t (h, a) n e) =
    let r = scan-int_digits ds t a e in ground (arith, r, scan_step minus d (ds ++ t))

pub scan-number : {s : Bytes} → IsNumber s → scan no_scalar s ≡ true
unfolding scan scalar_byte scalar_bad next_scalar first_scalar
scan-number (unsigned u) = (scan-unsigned u).1
scan-number (negative u) = (scan-unsigned u).0
