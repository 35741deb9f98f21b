-- ===== src/Runtime.antt =====
-- src/runtime/AppRuntime.cpp: the process-wide runtime.
pub mod Gate
