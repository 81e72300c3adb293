-- ===== src/Kube.antt =====
-- The Kubernetes objects as far as the operator reads them, and the parts of apimachinery that it
-- calls: the helpers for conditions and finalizers are interfaces, since their code is not in the
-- repository.
mod Objects
mod Conditions
mod Finalizers
pub mod Manifests
pub use Objects.{
  ApiError, not_found, no_match, other_error, error_text, Fetched, Fetched-cases, found, failed,
  PodCondition, ContainerStatus, Pod, label_of, ConfigMap, StatefulSet, RawCondition, RawConditions,
}
unfoldable pub use Objects.{lookup}
pub use Finalizers.{FinalizerApi}
pub use Conditions.{Condition, ConditionApi, recorded, SameReport}
