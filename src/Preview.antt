-- ===== src/Preview.antt =====
-- wcp_sdk_python/wcp_sdk/preview: the previews of the next version. The warnings are left out.
pub mod Lite
pub mod Buffer
pub mod Trust
pub mod Minimum
pub mod Multibase
pub mod Legacy
pub mod Roots
pub mod Vouched
pub mod Registered
