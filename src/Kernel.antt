-- ===== src/Kernel.antt =====
-- The kernel of labs/so25lab2g16: what the lab adds to xv6.
pub mod Semaphore
pub mod PingPong
pub mod Tateti
mod Tests
