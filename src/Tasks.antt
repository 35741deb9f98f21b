-- ===== src/Tasks.antt =====
-- The queues and executors of the library. A task is a value of a parameter type; an empty
-- std::function is `none`. Each method holds its lock throughout, so a run is a sequence of calls.
pub mod Runner
pub mod Pool
pub mod Timers
pub mod Manual
pub mod Thread
pub mod Coordinator
pub mod Owner
pub mod Rendezvous
