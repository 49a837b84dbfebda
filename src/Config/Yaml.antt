-- ===== src/Config/Yaml.antt =====
-- internal/config/yaml.go: the parser of a YAML subset. A line is read on its own and then placed in
-- the tree, which reports the same error first as the loop of parseYAMLTree.
pub mod Tree
pub mod Lex
pub mod Place
pub mod Parse
pub mod Printed
pub mod Placing
pub mod Trimmed
pub mod Lexing
pub mod Reading
pub mod Steps
pub mod Scanning
pub mod RoundTrip
