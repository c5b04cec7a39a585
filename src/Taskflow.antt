-- ===== src/Taskflow.antt =====
-- Package taskflow: tasks of several steps under a parent workflow (taskflow/).
pub mod Failure
pub mod Record
pub mod Store
pub mod Host
pub mod Manager
