-- ===== src/Model.antt =====
-- internal/model: the values that cross the boundaries of the program, and their validation.
pub mod SiteId
pub mod Site
