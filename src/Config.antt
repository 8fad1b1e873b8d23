-- ===== src/Config.antt =====
-- config.rs: the configuration from a file and the environment. The YAML parser, what the file
-- system answers and the `f64` percentages are parameters; a path is its bytes.
pub mod Settings
pub mod Loading
pub mod Sources
pub mod Validity
pub mod Chosen
pub mod Overrides
mod Examples
