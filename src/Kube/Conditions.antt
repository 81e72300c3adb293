-- ===== src/Kube/Conditions.antt =====
-- metav1.Condition, and the helpers of api/meta as an interface with the laws they document.
use openriak_operator.Prelude.{
  ℕ, String, Bool, false, List, Option, none, some, ◌≡◌, ◌≢◌, ◌==◌, bool_eq, if◌then◌else◌,
}

-- Times are numbers; `last_transition` is 0 in a condition that is handed to be set.
pub record Condition : Type 0 where
  pub cond_type : String
  pub status : Bool
  pub observed_generation : ℕ
  pub last_transition : ℕ
  pub reason : String
  pub message : String

-- What is stored when `c` is set at time `now` over the condition of its type that was there: the
-- time of transition moves only if the status flips.
abbrev pub recorded : ℕ → Option Condition → Condition → Condition
recorded now none c = record c { last_transition = now }
recorded now (some e) c = record c {
  last_transition = if bool_eq e.status c.status then e.last_transition else now;
}

-- `e` reports what `c` says.
pub record SameReport (e c : Condition) : Type 0 where
  pub same_status : e.status ≡ c.status
  pub same_generation : e.observed_generation ≡ c.observed_generation
  pub same_reason : e.reason ≡ c.reason
  pub same_message : e.message ≡ c.message

-- meta.SetStatusCondition, FindStatusCondition and RemoveStatusCondition. The first takes the time
-- and returns the new list and whether it changed.
pub record ConditionApi : Type 0 where
  pub set_status_condition : ℕ → List Condition → Condition → List Condition × Bool
  pub find_status_condition : List Condition → String → Option Condition
  pub remove_status_condition : List Condition → String → List Condition
  pub find-set_self :
      (now : ℕ) (cs : List Condition) (c : Condition)
      → c.last_transition ≡ 0
      → find_status_condition (set_status_condition now cs c).0 c.cond_type
        ≡ some (recorded now (find_status_condition cs c.cond_type) c)
  pub find-set_ne :
      (now : ℕ) (cs : List Condition) (c : Condition) (t : String)
      → c.cond_type ≢ t
      → find_status_condition (set_status_condition now cs c).0 t ≡ find_status_condition cs t
  pub set_repeated :
      (now : ℕ) (cs : List Condition) (c e : Condition)
      → find_status_condition cs c.cond_type ≡ some e
      → SameReport e c
      → (set_status_condition now cs c) ≡ (cs, false)
  pub find-remove :
      (cs : List Condition) (t u : String)
      → find_status_condition (remove_status_condition cs t) u
        ≡ (if t == u then none else find_status_condition cs u)
