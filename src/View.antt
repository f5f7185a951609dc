-- ===== src/View.antt =====
-- internal/server/service/view: the pages of a bundle, and where the references in them lead.
pub mod Address
pub mod Resolver
pub mod Service
pub mod Pages
