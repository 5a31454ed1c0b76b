-- ===== src/Scope/Spec.antt =====
-- crates/br-core-scope/src/spec.rs: a scope and a service as they are declared.
use br_rust_common.Base.{Bool, Text}
use br_rust_common.Scope.ServiceKey.{ServiceKey}
use br_rust_common.Scope.ScopeKey.{ScopeKey}

pub record ScopeSpec : Type 0 where
  pub key : ScopeKey
  pub label_key : Text
  pub description_key : Text
  pub platform_only : Bool

pub record ServiceManifest : Type 0 where
  pub key : ServiceKey
  pub label_key : Text
  pub description_key : Text
