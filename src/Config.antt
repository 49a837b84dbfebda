-- ===== src/Config.antt =====
-- internal/config: the YAML subset (yaml.go), and loading and validating a configuration
-- (config.go).
pub mod Yaml
pub mod Model
pub mod Apply
pub mod Load
pub mod Valid
pub mod Loaded
pub mod Secrets
