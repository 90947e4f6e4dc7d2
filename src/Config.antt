-- ===== src/Config.antt =====
-- apps/core/config.py: the configuration of a collector, what keeps it from running, and its parser.
-- YAML is the library's: a mapping is a dict of Value.
pub mod Placeholder
pub mod Collector
pub mod Skip
pub mod Parse
mod Needs
pub mod Ready
pub mod Defaults
mod Tests
