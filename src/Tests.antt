-- ===== src/Tests.antt =====
-- The properties applied to small concrete states.
mod Arc
mod World
mod Pool
mod Guard
mod Index
mod CountMin
mod Watermark
mod Tree
mod Storage
