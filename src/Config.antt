-- ===== src/Config.antt =====
-- lambda-extensions/config/: the configuration that the environment variables give.
pub mod Numbers
pub mod Defs
pub mod Validate
pub mod NumberLaws
