-- ===== src/Tool.antt =====
-- One tool call: the policy, the arguments and the approval it has to pass (src/nare/tools.py).
pub mod Arguments
pub mod Policy
pub mod Dispatch
pub mod Prepared
pub mod Started
pub mod Gate
