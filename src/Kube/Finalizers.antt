-- ===== src/Kube/Finalizers.antt =====
-- ContainsFinalizer, AddFinalizer and RemoveFinalizer of controllerutil, on the list of finalizers.
use openriak_operator.Prelude.{String, Bool, true, false, List, ◌≡◌, ◌==◌, if◌then◌else◌}

pub record FinalizerApi : Type 0 where
  pub contains_finalizer : List String → String → Bool
  pub add_finalizer : List String → String → List String
  pub remove_finalizer : List String → String → List String
  pub contains-add :
      (fs : List String) (f g : String)
      → contains_finalizer (add_finalizer fs f) g
        ≡ (if f == g then true else contains_finalizer fs g)
  pub contains-remove :
      (fs : List String) (f g : String)
      → contains_finalizer (remove_finalizer fs f) g
        ≡ (if f == g then false else contains_finalizer fs g)
