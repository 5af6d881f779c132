-- ===== src/GeeOrm.antt =====
-- geeorm: an object-relational mapper.
pub mod Clause
pub mod Dialect
pub mod Schema
pub mod Session
pub mod Engine
pub mod Migration
pub mod Log
mod Tests
