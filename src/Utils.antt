-- ===== src/Utils.antt =====
-- The helpers of src/monitor/utils.
pub mod Tokenizer
pub mod Config
pub mod Toml
pub mod Range
pub mod Decimal
pub mod Dump
