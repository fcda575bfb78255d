-- ===== src/Fs.antt =====
-- src/adbncfs.cpp: the callbacks of the file system, and what they are made from. Each child is about
-- one group of functions; those that one of them needs stand in a child of their own.
pub mod State
pub mod Keeps
pub mod Shell
pub mod Program
pub mod Stat
pub mod Attributes
pub mod Access
pub mod Transfer
pub mod Files
pub mod Directories
pub mod Links
pub mod Names
pub mod Space
