-- ===== src/Tests/Configs.antt =====
-- The configuration at concrete inputs.
use ollama_exporter.Base.{
  Bytes, pos, codes, equal, ℕ, ◌*◌, ◌/◌, ◌≡◌, refl, true, false, Bool, [], ◌∷◌, ◌++◌, arith, ◌↔◌,
}
use ollama_exporter.Base.Results.{ok}
use ollama_exporter.Go.Dict.{insert, lookup}
use ollama_exporter.Go.Duration
use ollama_exporter.Go.Strconv.{parse_bool}
use ollama_exporter.Go.Strings.{contains, cut_first, trim_space, to_lower}
use ollama_exporter.Go.Http.{canonical_header_key}
use ollama_exporter.Go.Url.{url_scheme}
use ollama_exporter.Config.Apply.{apply_tree, need}
use ollama_exporter.Config.Yaml.Lex.{lex_line, lex_body, split_kv}
use ollama_exporter.Config.Yaml.Place.{attach, place}
use ollama_exporter.Config.Yaml.Parse.{parse_yaml_tree, drop_cr}
use ollama_exporter.Config.Yaml.Tree.{
  Node, scalar, map_val, list_val, no_entries, entry, no_items, item,
}
use ollama_exporter.Config.Yaml.Printed.{
  Block, end_block, value_of, block_of, list_of, end_seq, plain, object, IsBlock, no_mark,
}
use ollama_exporter.Config.Yaml.RoundTrip.{text_of, tree_of, parse_yaml_tree-text}
use ollama_exporter.Config.Model.{Config, RemoteWriteConfig, defaults, empty_remote_write, second}
use ollama_exporter.Config.Load.{
  load, contents, apply_file, validate, mirror_listen, override_env, validate_all,
  validate_remote_write,
}
use ollama_exporter.Config.Valid.{IsValid, validate_iff}
use ollama_exporter.Config.Loaded.{ComesFrom, Reads, load-IsValid}
use ollama_exporter.Config.Secrets.{
  Fails, exposes, holds_secret, map_with, list_with, load_refuses_secrets,
}

-- Two keys, a list of one object with a block, and a block with a list of a value.
abbrev document : Block
document =
    list_of (codes "remote_write")
      (object (codes "url") (codes "https://x.org/p")
        (block_of (codes "headers") (value_of (codes "X-Scope") (codes "t") end_block) end_block)
        end_seq)
      (block_of (codes "proxy")
        (list_of (codes "exclude_paths") (plain (codes "/a") end_seq) end_block) end_block)

document-IsBlock : IsBlock 0 document
unfolding IsBlock contains no_mark
document-IsBlock = ground arith

parse_yaml_tree-text_example : parse_yaml_tree (text_of document) ≡ ok (tree_of document)
parse_yaml_tree-text_example = parse_yaml_tree-text document document-IsBlock

abbrev nl : Bytes
nl = 10 ∷ []

-- A file with a comment, an entry of remote_write and a quoted value.
abbrev pub text : Bytes
text =
    codes "proxy:  # c"
    ++ nl
    ++ codes "  enabled: 'false'"
    ++ nl
    ++ codes "remote_write:"
    ++ nl
    ++ codes "  - url: https://x.org/p"
    ++ nl
    ++ codes "    flush_interval: 1m10s"
    ++ nl
    ++ codes "    headers:"
    ++ nl
    ++ codes "      X-Scope: t"

abbrev pub entry_of_text : RemoteWriteConfig
entry_of_text = record empty_remote_write {
  url = codes "https://x.org/p";
  flush_interval = pos (70 * second);
  headers = (codes "X-Scope", codes "t") ∷ [];
}

abbrev pub config_of_text : Config
config_of_text = record defaults {
  listen_addr = codes ":1";
  metrics_endpoint = record { enabled = true; listen_address = codes ":1" };
  proxy = record defaults.proxy { enabled = false };
  remote_write = entry_of_text ∷ [];
}

abbrev pub scaled : ℕ → ℕ → ℕ → ℕ
scaled f s u = f * u / s

abbrev pub accepts : Bytes → Bool
accepts s = true

pub text_loads : load scaled accepts (contents text) [] (codes ":1") ≡ ok config_of_text
unfolding defaults empty_remote_write equal insert lookup cut_first trim_space to_lower parse_bool
    Duration.parse_duration Duration.split_number Duration.leading_int Duration.leading_fraction
    Duration.sum_runs Duration.scale_unit Duration.run_value canonical_header_key url_scheme
    parse_yaml_tree drop_cr place attach lex_line lex_body split_kv apply_tree need load apply_file
    validate mirror_listen override_env validate_all validate_remote_write
text_loads = refl

load-IsValid_example : (load scaled accepts (contents text) [] (codes ":1") ≡ ok config_of_text) ↔ (
    IsValid accepts config_of_text
    × ((cfg : Config) × Reads scaled (contents text) cfg
        × ComesFrom [] (codes ":1") cfg config_of_text))
load-IsValid_example = load-IsValid scaled accepts (contents text) [] (codes ":1") config_of_text

validate_iff_example : (validate accepts config_of_text ≡ ok tt) ↔ IsValid accepts config_of_text
validate_iff_example = validate_iff accepts config_of_text

abbrev secret_text : Bytes
secret_text =
    codes "remote_write:"
    ++ nl
    ++ codes "  - url: u"
    ++ nl
    ++ codes "    basic_auth:"
    ++ nl
    ++ codes "      password: p"

abbrev secret_tree : Node
secret_tree = map_val (
    entry (codes "remote_write")
      (list_val (
        item
          (map_val (
            entry (codes "url") (scalar (codes "u")) (
              entry (codes "basic_auth")
                (map_val (entry (codes "password") (scalar (codes "p")) no_entries)) no_entries)))
          no_items))
      no_entries)

load_refuses_secrets_example : Fails (load scaled accepts (contents secret_text) [] [])
load_refuses_secrets_example =
    load_refuses_secrets scaled accepts secret_text [] [] {tree = secret_tree}
      (unfold equal cut_first trim_space parse_yaml_tree drop_cr place attach lex_line lex_body
          split_kv in
        refl)
      (unfold exposes holds_secret map_with list_with equal in refl)
