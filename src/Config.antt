-- ===== src/Config.antt =====
-- crates/lb-config-manager: the configuration, its checks and the tables that are built from it.
pub mod Model
pub mod Validator
pub mod Applier
