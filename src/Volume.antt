-- ===== src/Volume.antt =====
-- source/volume.cxx and include/prodos/volume.hxx: a mounted volume.
pub mod Paths
pub mod Header
pub mod Resolve
pub mod SplitLaws
pub mod GetEntry
pub mod Open
pub mod Folders
pub mod Mount
pub mod Usage
pub mod Catalog
pub mod Rename
