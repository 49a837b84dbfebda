-- ===== src/Go/Trimming.antt =====
-- Laws of trimming and cutting.
use ollama_exporter.Base.{All, Bytes, ℕ, ◌≡◌, refl, Bool, false, some, [], ◌∷◌, ◌++◌, arith}
use ollama_exporter.Go.Strings.{cut_first, contains, trim_space, trim_left, trim_right, is_space}

trim_right-keep :
    (p : ℕ → Bool) (c : ℕ) (cs : Bytes) {x : ℕ} {xs : Bytes}
    → trim_right p cs ≡ x ∷ xs
    → trim_right p (c ∷ cs) ≡ c ∷ x ∷ xs
unfolding trim_right
trim_right-keep p c cs h = rw h

-- A text that ends with a byte that stays.
pub trim_right-last :
    (p : ℕ → Bool) (s : Bytes) (d : ℕ) → p d ≡ false → trim_right p (s ++ d ∷ []) ≡ s ++ d ∷ []
trim_right-last p [] d h = unfold trim_right in rw h
trim_right-last p (c ∷ []) d h = trim_right-keep p c (d ∷ []) (trim_right-last p [] d h)
trim_right-last p (c ∷ e ∷ s) d h =
    trim_right-keep p c (e ∷ s ++ d ∷ []) (trim_right-last p (e ∷ s) d h)

-- A word without spaces.
pub trim_right-none : (p : ℕ → Bool) (s : Bytes) → All (λ c. p c ≡ false) s → trim_right p s ≡ s
unfolding trim_right
trim_right-none p [] h = refl
trim_right-none p (c ∷ []) h = rw (h.0)
trim_right-none p (c ∷ d ∷ s) h = rw (trim_right-none p (d ∷ s) h.1)

pub trim_space-none : (s : Bytes) → All (λ c. is_space c ≡ false) s → trim_space s ≡ s
unfolding trim_space trim_left
trim_space-none [] h = refl
trim_space-none (c ∷ cs) h = rw (h.0) (trim_right-none is_space (c ∷ cs) h)

pub cut_first-found :
    (sep : ℕ) (a b : Bytes) → contains sep a ≡ false → cut_first sep (a ++ sep ∷ b) ≡ some (a, b)
unfolding cut_first contains
cut_first-found sep [] b h = ground arith
cut_first-found sep (c ∷ a) b h = ground (arith, cut_first-found sep a b)

pub contains-append :
    (d : ℕ) (s t : Bytes)
    → contains d s ≡ false
    → contains d t ≡ false
    → contains d (s ++ t) ≡ false
unfolding contains
contains-append d [] t h k = k
contains-append d (c ∷ s) t h k = ground (arith, contains-append d s t)
