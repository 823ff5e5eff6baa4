-- ===== src/V1alpha1.antt =====
-- The custom resources of api/v1alpha1: templates, instances, claims and the operator's
-- configuration. A pointer or a time that may be unset is an Option; a string enumeration is a data
-- type whose first constructor is the empty string.
pub mod Common
pub mod Template
pub mod Instance
pub mod Claim
pub mod Operator
