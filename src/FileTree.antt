-- ===== src/FileTree.antt =====
-- internal/server/filetree: what a path of a bundle addresses, and what the pages around it show.
pub mod Classify
pub mod Listing
pub mod Tree
pub mod Crumbs
