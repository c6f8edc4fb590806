-- ===== src/Spts.antt =====
-- spts.c and spts.h: the single program transport stream. The state is a record, an operation
-- returns the new one, and a call of `write_func` is a packet in the list that the operation
-- returns, in the order of the calls.
pub mod State
pub mod Setup
pub mod Fresh
pub mod Packets
pub mod Frame
pub mod Callback
pub mod Slices
