-- ===== src/Matrix.antt =====
-- project_3: matrix products by threads that add into a shared result under one mutex.
pub mod Sum
pub mod Schedule
pub mod PartA
pub mod PartB
pub mod PartC
