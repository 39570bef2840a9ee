-- ===== src/Policy.antt =====
-- policy/engine.go and policy/tighten.go, with the types of config/config.go that they read.
-- `Value` holds an argument, `Condition` evaluates conditions, `Engine` the rules, `Tighten` floors.
pub mod Value
pub mod Condition
pub mod Engine
pub mod Tighten
