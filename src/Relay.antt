-- ===== src/Relay.antt =====
-- A kernel's archive that a node cannot fetch itself, passed on by the panel a chunk at a time: Serve
-- has the panel's side, Transfer the agent's.
pub mod Serve
pub mod Transfer
pub mod Whole
mod Examples
