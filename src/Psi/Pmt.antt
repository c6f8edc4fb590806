-- ===== src/Psi/Pmt.antt =====
-- The PMT against a specification: a program number, the PID of the clock, and a list of streams.
-- The three operations of psi.c keep a section in step with it, and a receiver reads it back.
pub mod Defs
pub mod Init
pub mod Add
pub mod Ops
