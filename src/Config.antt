-- ===== src/Config.antt =====
-- The configuration: src/common/app_config.h and src/common/config_loader.cpp.
pub mod Types
pub mod Validate
pub mod Load
pub mod Valid
