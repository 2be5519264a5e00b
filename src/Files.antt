-- ===== src/Files.antt =====
-- Anonymous files: westfield-fdutils.c, and createMemoryMappedFile of node-addon/westfield-addon.c.
pub mod Anonymous
pub mod Written
