-- ===== src/Api.antt =====
-- api/components/v1alpha1: the semantic version, the status types, and the objects with their deep copies.
pub mod Semver
pub mod Status
pub mod Objects
pub mod Scheme
