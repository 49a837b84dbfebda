-- ===== src/Collector/JsonFields/State.antt =====
-- `jsonFrame`, `jsonFields`, `wanted` and `path` of streamjson.go: the state, and the path of the
-- field whose value comes next.
use ollama_exporter.Base.{
  if◌then◌else◌, Bytes, codes, equal, ℕ, Bool, true, false, not, ◌&&◌, ◌||◌, Option, List, [], ◌∷◌,
  ◌++◌,
}
use ollama_exporter.Go.Strings.{contains}
use ollama_exporter.Collector.JsonFields.Scalars.{Scalar}

pub data Kind : Type 0 where
  object array : Kind

-- 'k', 'K', ':', ',', 'v' and 'a'.
pub data FrameState : Type 0 where
  first_key next_key colon comma value first_item : FrameState

pub record Frame : Type 0 where
  pub kind : Kind
  pub state : FrameState
  pub key : Bytes

-- 0, '"' and 's'.
pub data Mode : Type 0 where
  idle in_string in_scalar : Mode

-- The strings of `failure` and of the results of an extraction.
pub data Reason : Type 0 where
  selected_value_limit depth_limit malformed incomplete upstream_error read_error : Reason
  body_closed invalid_fields usage_absent http_status no_reason : Reason

abbrev pub Fields : Type 0
Fields = List (Bytes × Bytes)

-- `emitted` holds the arguments of the calls of `emit`, the latest last.
pub record JsonFields : Type 0 where
  pub stack : List Frame
  pub token : Bytes
  pub mode : Mode
  pub escape : Bool
  pub unicode : ℕ
  pub scalar : Scalar
  pub key_token : Bool
  pub overflow : Bool
  pub bad : Bool
  pub failure : Option Reason
  pub key_skipped : Bool
  pub fields : Fields
  pub emitted : List Fields

unfoldable pub one_of : List Bytes → Bytes → Bool
one_of [] s = false
one_of (t ∷ ts) s = equal t s || one_of ts s

abbrev pub wanted_paths : List Bytes
wanted_paths =
    codes "model"
    ∷ codes "done"
    ∷ codes "error"
    ∷ codes "type"
    ∷ codes "load_duration"
    ∷ codes "eval_count"
    ∷ codes "eval_duration"
    ∷ codes "prompt_eval_count"
    ∷ codes "prompt_eval_duration"
    ∷ codes "usage.prompt_tokens"
    ∷ codes "usage.completion_tokens"
    ∷ codes "usage.input_tokens"
    ∷ codes "usage.output_tokens"
    ∷ codes "message.model"
    ∷ codes "message.usage.input_tokens"
    ∷ codes "message.usage.output_tokens"
    ∷ []

unfoldable pub wanted : Bytes → Bool
wanted = one_of wanted_paths

-- Every frame is of an object, and no key holds a dot.
unfoldable pub plain_keys : List Frame → Bool
plain_keys [] = true
plain_keys (f ∷ fs) =
    (elim f.kind [ object ↦ not (contains b'.' f.key) | array ↦ false ]) && plain_keys fs

abbrev pub join_dot : Bytes → Bytes → Bytes
join_dot a b = a ++ b'.' ∷ b

unfoldable pub path_of : List Frame → Bytes
path_of (f1 ∷ []) = f1.key
path_of (f2 ∷ f1 ∷ []) = join_dot f1.key f2.key
path_of (f3 ∷ f2 ∷ f1 ∷ []) = join_dot (join_dot f1.key f2.key) f3.key
path_of _ = []

unfoldable pub path : List Frame → Bytes
path stack = if plain_keys stack then path_of stack else []
