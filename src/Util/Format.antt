-- ===== src/Util/Format.antt =====
-- src/util/format.hpp, src/util/format.cpp. A string is the list of its bytes.
pub mod Find
pub mod Split
pub mod Trim
pub mod Color
pub mod Url
