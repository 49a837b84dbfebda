-- ===== src/Config/Yaml/Trimmed.antt =====
-- Trimming, cutting and unquoting the parts of a printed line.
use ollama_exporter.Base.{
  drop, All, Bytes, codes, ℕ, zero, suc, ◌≡◌, refl, ap, ◌≢◌, true, false, none, [], ◌∷◌, ◌++◌,
  arith,
}
use ollama_exporter.Go.Strings.{has_prefix, cut_at, contains, trim_left, is_space}
use ollama_exporter.Config.Yaml.Lex.{unquote_yaml, without_last, last_byte, leading_spaces}
use ollama_exporter.Config.Yaml.Parse.{drop_cr}
use ollama_exporter.Config.Yaml.Printed.{spaces, quoted, key_byte, starts_hash, no_mark}

pub drop_cr-last : (s : Bytes) (d : ℕ) → d ≢ 13 → drop_cr (s ++ d ∷ []) ≡ s ++ d ∷ []
unfolding drop_cr
drop_cr-last [] d h = ground arith
drop_cr-last (c ∷ []) d h = ap (λ (t : Bytes). c ∷ t) (drop_cr-last [] d h)
drop_cr-last (c ∷ e ∷ s) d h = ap (λ (t : Bytes). c ∷ t) (drop_cr-last (e ∷ s) d h)

pub without_last-last : (s : Bytes) (d : ℕ) → without_last (s ++ d ∷ []) ≡ s
unfolding without_last
without_last-last [] d = refl
without_last-last (c ∷ []) d = refl
without_last-last (c ∷ e ∷ s) d = ap (λ (t : Bytes). c ∷ t) (without_last-last (e ∷ s) d)

last_byte-last : (c : ℕ) (s : Bytes) (d : ℕ) → last_byte c (s ++ d ∷ []) ≡ d
unfolding last_byte
last_byte-last c [] d = refl
last_byte-last c (e ∷ s) d = last_byte-last e s d

pub unquote_yaml-quoted : (v : Bytes) → unquote_yaml (quoted v) ≡ v
unfolding unquote_yaml
unquote_yaml-quoted [] = refl
unquote_yaml-quoted (c ∷ cs) = rw (last_byte-last c cs b'"', without_last-last (c ∷ cs) b'"')

-- Leading spaces are counted and cut off.
pub leading_spaces-spaces : (i c : ℕ) (t : Bytes) → c ≢ 32 → leading_spaces (spaces i (c ∷ t)) ≡ i
unfolding leading_spaces
leading_spaces-spaces zero c t h = ground arith
leading_spaces-spaces (suc i) c t h = ap suc (leading_spaces-spaces i c t h)

pub drop-spaces : (i : ℕ) (t : Bytes) → drop i (spaces i t) ≡ t
drop-spaces zero t = refl
drop-spaces (suc i) t = drop-spaces i t

pub trim_left-spaces :
    (i c : ℕ) (t : Bytes) → is_space c ≡ false → trim_left is_space (spaces i (c ∷ t)) ≡ c ∷ t
unfolding trim_left
trim_left-spaces zero c t h = rw h
trim_left-spaces (suc i) c t h = trim_left-spaces i c t h

pub spaces-append : (i : ℕ) (s t : Bytes) → spaces i (s ++ t) ≡ spaces i s ++ t
spaces-append zero s t = refl
spaces-append (suc i) s t = ap (λ (u : Bytes). 32 ∷ u) (spaces-append i s t)

-- No comment is found where none starts.
pub cut_at-none : (s : Bytes) → no_mark s ≡ true → cut_at (codes " #") s ≡ none
unfolding cut_at no_mark has_prefix
cut_at-none [] h = refl
cut_at-none (c ∷ []) h = ground arith
cut_at-none (c ∷ d ∷ s) h = ground (arith, cut_at-none (d ∷ s))

-- Text without `#` in front of text that does not start with one.
pub no_mark-append :
    (s t : Bytes)
    → contains b'#' s ≡ false
    → starts_hash t ≡ false
    → no_mark t ≡ true
    → no_mark (s ++ t) ≡ true
unfolding no_mark contains
no_mark-append [] t h k m = m
no_mark-append (c ∷ []) t h k m = ground arith
no_mark-append (c ∷ d ∷ s) t h k m = ground (arith, no_mark-append (d ∷ s) t)

pub no_mark-spaces :
    (i : ℕ) (t : Bytes) → starts_hash t ≡ false → no_mark t ≡ true → no_mark (spaces i t) ≡ true
unfolding no_mark
no_mark-spaces zero t k m = m
no_mark-spaces (suc zero) t k m = ground arith
no_mark-spaces (suc (suc i)) t k m = no_mark-spaces (suc i) t k m

pub no_mark-last : (v : Bytes) (d : ℕ) → d ≢ b'#' → no_mark v ≡ true → no_mark (v ++ d ∷ []) ≡ true
unfolding no_mark
no_mark-last [] d h m = ground arith
no_mark-last (c ∷ []) d h m = ground arith
no_mark-last (c ∷ e ∷ v) d h m = ground (arith, no_mark-last (e ∷ v) d)

-- The bytes of a key.
pub key_bytes-not_space :
    (s : Bytes) → All (λ b. key_byte b ≡ true) s → All (λ c. is_space c ≡ false) s
key_bytes-not_space [] h = tt
key_bytes-not_space (c ∷ cs) h = (ground arith, key_bytes-not_space cs h.1)

pub key_bytes-contains :
    (d : ℕ) (s : Bytes) → key_byte d ≡ false → All (λ b. key_byte b ≡ true) s → contains d s ≡ false
unfolding contains
key_bytes-contains d [] k h = refl
key_bytes-contains d (c ∷ cs) k h = ground (arith, key_bytes-contains d cs, ap key_byte)
