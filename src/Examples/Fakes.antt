-- ===== src/Examples/Fakes.antt =====
-- The interfaces to the Kubernetes libraries filled by lists that are searched in order.
use openriak_operator.Prelude.{
  ℕ, String, Bool, true, false, not, ◌&&◌, List, [], ◌∷◌, Option, none, some, ◌≡◌, ◌≢◌, refl, sym,
  subst, ap, arith, Bool-cases, inl, inr, ◌==◌, eq_iff, eqb, bool_eq, if◌then◌else◌,
}
use openriak_operator.Kube.{Condition, recorded, SameReport, ConditionApi, FinalizerApi}

abbrev same_report : Condition → Condition → Bool
same_report e c =
    bool_eq e.status c.status
    && eqb e.observed_generation c.observed_generation
    && e.reason == c.reason
    && e.message == c.message

abbrev set_listed : ℕ → List Condition → Condition → List Condition × Bool
set_listed now [] c = (recorded now none c ∷ [], true)
set_listed now (e ∷ cs) c =
    let (rest, changed) = set_listed now cs c in
    if e.cond_type == c.cond_type
    then (recorded now (some e) c ∷ cs, not (same_report e c))
    else (e ∷ rest, changed)

abbrev find_listed : List Condition → String → Option Condition
find_listed [] t = none
find_listed (e ∷ cs) t = if e.cond_type == t then some e else find_listed cs t

abbrev remove_listed : List Condition → String → List Condition
remove_listed [] t = []
remove_listed (e ∷ cs) t =
    let rest = remove_listed cs t in if e.cond_type == t then rest else e ∷ rest

recorded-same :
    (now : ℕ) (e c : Condition)
    → e.cond_type ≡ c.cond_type
    → SameReport e c
    → recorded now (some e) c ≡ e
recorded-same now e c t same =
    ground (arith, t, same.same_status, same.same_generation, same.same_reason, same.same_message)

recorded-type :
    (now : ℕ) (o : Option Condition) (c : Condition) → (recorded now o c).cond_type ≡ c.cond_type
recorded-type now none c = refl
recorded-type now (some e) c = refl

pub find-set_self_listed :
    (now : ℕ) (cs : List Condition) (c : Condition)
    → find_listed (set_listed now cs c).0 c.cond_type
      ≡ some (recorded now (find_listed cs c.cond_type) c)
find-set_self_listed now [] c = ground (arith, eq_iff c.cond_type c.cond_type)
find-set_self_listed now (e ∷ cs) c =
    ground (arith, eq_iff c.cond_type c.cond_type, find-set_self_listed now cs c)

pub find-set_ne_listed :
    (now : ℕ) (cs : List Condition) (c : Condition) (t : String)
    → c.cond_type ≢ t
    → find_listed (set_listed now cs c).0 t ≡ find_listed cs t
find-set_ne_listed now [] c t ne = ground (arith, ne, eq_iff c.cond_type t)
find-set_ne_listed now (e ∷ cs) c t ne = ground (
  arith,
  ne,
  eq_iff c.cond_type t,
  eq_iff e.cond_type c.cond_type,
  find-set_ne_listed now cs c t ne,
)

same_report-true : (e c : Condition) → SameReport e c → same_report e c ≡ true
same_report-true e c same = ground (
  arith,
  same.same_status,
  same.same_generation,
  same.same_reason,
  same.same_message,
  eq_iff e.reason c.reason,
  eq_iff e.message c.message,
)

pub set_repeated_listed :
    (now : ℕ) (cs : List Condition) (c e : Condition)
    → find_listed cs c.cond_type ≡ some e
    → SameReport e c
    → set_listed now cs c ≡ (cs, false)
set_repeated_listed now [] c e f same = absurd (ground (arith, f))
set_repeated_listed now (d ∷ cs) c e f same = elim (Bool-cases (d.cond_type == c.cond_type)) [
  | inl at ↦
      let is_first : d ≡ e = ground (arith, at, f) in
      let reported = subst (λ (x : Condition). SameReport x c) (sym is_first) same in
      ground (
        arith,
        at,
        recorded-same now d c ((eq_iff d.cond_type c.cond_type).0 at) reported,
        same_report-true d c reported,
      )
  | inr past ↦ ground (arith, past, set_repeated_listed now cs c e (ground (arith, past, f)) same)
]

pub find-remove_listed :
    (cs : List Condition) (t u : String)
    → find_listed (remove_listed cs t) u ≡ (if t == u then none else find_listed cs u)
find-remove_listed [] t u = ground arith
find-remove_listed (e ∷ cs) t u =
    ground
      (arith, eq_iff e.cond_type t, eq_iff e.cond_type u, eq_iff t u, find-remove_listed cs t u)

abbrev pub listed_conditions : ConditionApi
listed_conditions = record {
  set_status_condition = set_listed;
  find_status_condition = find_listed;
  remove_status_condition = remove_listed;
  find-set_self = λ now cs c unset. find-set_self_listed now cs c;
  find-set_ne = find-set_ne_listed;
  set_repeated = set_repeated_listed;
  find-remove = find-remove_listed;
}

abbrev is_listed : List String → String → Bool
is_listed [] f = false
is_listed (g ∷ fs) f = if g == f then true else is_listed fs f

abbrev add_listed : List String → String → List String
add_listed fs f = if is_listed fs f then fs else f ∷ fs

abbrev drop_listed : List String → String → List String
drop_listed [] f = []
drop_listed (g ∷ fs) f = let rest = drop_listed fs f in if g == f then rest else g ∷ rest

is_listed-at : (fs : List String) (f g : String) → f ≡ g → is_listed fs f ≡ is_listed fs g
is_listed-at fs f g e = ap (is_listed fs) e

pub contains-add_listed :
    (fs : List String) (f g : String)
    → is_listed (add_listed fs f) g ≡ (if f == g then true else is_listed fs g)
contains-add_listed fs f g = elim (Bool-cases (f == g)) [
  | inl same ↦ ground (arith, same, is_listed-at fs f g ((eq_iff f g).0 same))
  | inr ne ↦ ground (arith, ne)
]

pub contains-remove_listed :
    (fs : List String) (f g : String)
    → is_listed (drop_listed fs f) g ≡ (if f == g then false else is_listed fs g)
contains-remove_listed [] f g = ground arith
contains-remove_listed (h ∷ fs) f g =
    ground (arith, eq_iff h f, eq_iff h g, eq_iff f g, contains-remove_listed fs f g)

abbrev pub listed_finalizers : FinalizerApi
listed_finalizers = record {
  contains_finalizer = is_listed;
  add_finalizer = add_listed;
  remove_finalizer = drop_listed;
  contains-add = contains-add_listed;
  contains-remove = contains-remove_listed;
}
