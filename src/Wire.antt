-- ===== src/Wire.antt =====
-- The byte formats that cross the boundary between Lean and C++.
pub mod Words
pub mod Headers
pub mod Tables
