-- ===== src/Thread.antt =====
-- project_5_6/thread.c, one child for each group of its functions.
pub mod Switch
pub mod Burial
pub mod Sleep
pub mod Wakeup
pub mod Signal
pub mod Sleeping
pub mod Create
pub mod Join
pub mod Search
pub mod Joining
pub mod Detaching
pub mod Fork
pub mod Forking
pub mod Adoption
pub mod Exit
pub mod Attached
pub mod Halving
pub mod Exiting
pub mod Population
pub mod Conservation
pub mod Yielding
pub mod Fairness
