-- ===== src/Fuse.antt =====
-- main.cxx: the operations that FUSE calls, over the mounted volume, and the program around them.
pub mod Settings
pub mod Errors
pub mod Names
pub mod Attributes
pub mod Files
pub mod Status
pub mod Directories
pub mod MountPoint
pub mod Program
pub mod Lifetime
pub mod Refusals
pub mod Requests
pub mod Threads
