-- ===== src/Tests.antt =====
-- Tests, and the theorems at concrete inputs, on the small image of Tests/Sample.
pub mod Sample
mod Disks
mod Saves
mod Directories
mod Files
mod Renames
mod FileTypes
mod Volumes
mod Operations
mod Programs
mod Requests
mod Dumps
mod Commands
mod Layouts
mod Listings
