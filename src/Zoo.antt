-- ===== src/Zoo.antt =====
-- pkg/zoo and cmd/tool: the generator of projects.
pub mod World
pub mod Folder
pub mod Render
pub mod Plan
pub mod Project
pub mod Tool
