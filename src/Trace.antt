-- ===== src/Trace.antt =====
-- trace.c: which instructions are shown while the emulator runs, as ./conf/trace.yml asks for, and
-- what is shown of each.
pub mod Names
pub mod Config
pub mod Match
pub mod Show
