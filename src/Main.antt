-- ===== src/Main.antt =====
-- hcv_main.cc: the parts that the other modules call.
pub mod Config
pub mod Arguments
pub mod ConfigGroup
pub mod Start
pub mod Run
pub mod Process
pub mod Settings
pub mod Early
