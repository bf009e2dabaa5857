-- ===== src/Bore.antt =====
-- The BORE scheduler of rust/rustlux_sched: its parameters, the packed cache of a penalty, the
-- penalty's arithmetic, the context of a task, the average of a group, and the FFI.
pub mod Params
pub mod Cache
pub mod Penalty
pub mod Context
pub mod Average
pub mod Ffi
mod UnitTests
mod Tests
