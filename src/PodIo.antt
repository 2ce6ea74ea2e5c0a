-- ===== src/PodIo.antt =====
-- The I/O experiment on pods (exec/pod/fsexp.go), which talks to the file system inside them.
pub mod Defs
pub mod Requests
pub mod Served
pub mod Results
mod Tests
