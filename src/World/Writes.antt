-- ===== src/World/Writes.antt =====
-- The events that may change something: all but the reads.
use openriak_operator.Prelude.{Bool, true, false, List, keep_if, ◌≡◌, inl, inr, Result-cases, ◌∙◌}
use openriak_operator.World.{Event, get, list_objects, History, Exec, ◌>>=◌}

abbrev pub is_write : Event → Bool
is_write (get kind namespace name) = false
is_write (list_objects kind namespace labels) = false
is_write _ = true

unfoldable pub writes : History → List Event
writes h = keep_if is_write h

-- A call that writes nothing.
abbrev pub OnlyReads : {A : Type 0} → Exec A → Type 0
OnlyReads m = (h : History) → writes (m h).1 ≡ writes h

pub bind-OnlyReads :
    {A B : Type 0} (m : Exec A) (f : A → Exec B)
    → OnlyReads m
    → ((a : A) → OnlyReads (f a))
    → OnlyReads (m >>= f)
bind-OnlyReads m f reads then_reads h = elim (Result-cases (m h).0) [
  | inl (e, bad) ↦ rw bad (reads h)
  | inr (a, good) ↦ rw good (then_reads a (m h).1 ∙ reads h)
]
