-- ===== src/Brightness.antt =====
-- native/src/brightness.cpp: the brightness engine.
pub mod State
pub mod Commands
pub mod Adopt
pub mod Order
pub mod Convergence
pub mod Restore
pub mod Restart
pub mod Gate
pub mod Local
pub mod Output
pub mod Configure
pub mod Run
pub mod Hash
