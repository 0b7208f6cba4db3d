-- ===== src/Strings.antt =====
-- include/SkBase/String.hxx and include/SkBase/SharedData.hxx: strings that share their data until
-- one of them is written to.
pub mod Capacity
pub mod Store
pub mod Held
pub mod Append
pub mod Text
mod Tests
