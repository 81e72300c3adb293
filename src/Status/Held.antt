-- ===== src/Status/Held.antt =====
-- A condition that is set is found as it was set, and setting it again changes nothing.
use openriak_operator.Prelude.{
  ℕ, String, Bool, false, List, Option, none, some, ◌≡◌, ◌≢◌, ◌∙◌, refl,
}
use openriak_operator.Kube.{Condition, recorded, SameReport}
use openriak_operator.World.{Api, History}
use openriak_operator.Status.{new_condition, set_condition}

recorded-SameReport :
    (now : ℕ) (o : Option Condition) (c : Condition) → SameReport (recorded now o c) c
recorded-SameReport now none c = record {
  same_status = refl;
  same_generation = refl;
  same_reason = refl;
  same_message = refl;
}
recorded-SameReport now (some e) c = record {
  same_status = refl;
  same_generation = refl;
  same_reason = refl;
  same_message = refl;
}

module _ (api : Api) (h : History) (conds : List Condition) (cond_type : String) (holds : Bool)
    (generation : ℕ) (reason message : String) where
  pub set_condition-held :
      (c : Condition) × (api.find_status_condition
          (set_condition api h conds cond_type holds generation reason message).0
          cond_type
        ≡ some c)
      × SameReport c (new_condition cond_type holds generation reason message)
  unfolding set_condition
  set_condition-held =
      let new = new_condition cond_type holds generation reason message in
      let old = api.find_status_condition conds cond_type in
      (
        recorded (api.now h) old new,
        api.find-set_self (api.now h) conds new refl,
        recorded-SameReport (api.now h) old new,
      )

  pub set_condition-again :
      (h' : History)
      → let conds' = (set_condition api h conds cond_type holds generation reason message).0 in
        set_condition api h' conds' cond_type holds generation reason message ≡ (conds', false)
  unfolding set_condition
  set_condition-again h' =
      let (c, found, same) = set_condition-held in
      let new = new_condition cond_type holds generation reason message in
      api.set_repeated (api.now h') (api.set_status_condition (api.now h) conds new).0 new c found
        same

  -- So it does after another type of condition has been set over it.
  pub set_condition-kept :
      (other_type : String) (other_holds : Bool) (other_reason other_message : String)
      → other_type ≢ cond_type
      → (h' : History)
      → let set_first = (set_condition api h conds cond_type holds generation reason message).0 in
        let both =
          (set_condition api h set_first other_type other_holds generation other_reason
            other_message).0 in
        set_condition api h' both cond_type holds generation reason message ≡ (both, false)
  unfolding set_condition
  set_condition-kept other_type other_holds other_reason other_message ne h' =
      let (c, is_held, same) = set_condition-held in
      let new = new_condition cond_type holds generation reason message in
      let other = new_condition other_type other_holds generation other_reason other_message in
      let set_first = (api.set_status_condition (api.now h) conds new).0 in
      api.set_repeated (api.now h') (api.set_status_condition (api.now h) set_first other).0 new c
        (api.find-set_ne (api.now h) set_first other cond_type ne ∙ is_held) same
