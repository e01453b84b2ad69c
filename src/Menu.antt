-- ===== src/Menu.antt =====
-- project_5_6/menu.c: the in-kernel menu. A word is the list of its bytes, without the final NUL.
pub mod Interval
pub mod Words
pub mod Splitting
pub mod Lines
pub mod Show
pub mod Texts
pub mod Commands
pub mod Dispatch
pub mod Execute
pub mod Lookup
pub mod Session
pub mod Tables
pub mod Programs
pub mod Quitting
