-- ===== src/Synch.antt =====
-- project_5_6/synch.c: semaphores, locks and condition variables, over the thread system.
pub mod Semaphore
pub mod Lock
pub mod Cv
pub mod Runs
pub mod Sleepers
pub mod Waiting
pub mod Conditions
pub mod Acquire
pub mod Exclusion
pub mod Balance
pub mod Calls
pub mod Keeping
pub mod Wakeups
pub mod Abstract
pub mod Shown
pub mod Refinement
pub mod Locking
