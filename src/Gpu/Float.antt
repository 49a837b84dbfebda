-- ===== src/Gpu/Float.antt =====
-- float64 as far as the GPU collectors use it: a parameter. `quotient v k` is `v / k` for a constant,
-- and `parse_float` is strconv.ParseFloat.
use ollama_exporter.Base.{Bytes, ℕ, Bool, Option}

pub record Float : Type 1 where
  pub F : Type 0
  pub zero_value : F
  pub of_uint64 : ℕ → F
  pub quotient : F → ℕ → F
  pub is_pos : F → Bool
  pub parse_float : Bytes → Option F
