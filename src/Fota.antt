-- ===== src/Fota.antt =====
-- packaging/fota: the composition and the validation of the provider's component artifacts.
pub mod Bytes
pub mod Paths
pub mod Tar
pub mod Disk
pub mod Prebuild
pub mod Documents
pub mod Family
pub mod Artifact
mod Tests
