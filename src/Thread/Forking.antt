-- ===== src/Thread/Forking.antt =====
-- What thread_fork of thread.c does. Furnishing and Reserving are about its two
-- halves, Run puts them together, and Gaining and Complete are about the kernel that it leaves.
-- Preallocation, Refusal and Starvation are about its errors.
pub mod Furnishing
pub mod Reserving
pub mod Run
pub mod Growth
pub mod Gaining
pub mod Complete
pub mod Preallocation
pub mod Refusal
pub mod Starvation
