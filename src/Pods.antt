-- ===== src/Pods.antt =====
-- exec/pod: the executors of the pod experiments "delete" and "fail".
pub mod Defs
pub mod Results
pub mod Images
mod Tests
