-- ===== src/World/Binds.antt =====
-- A chain of calls that succeeds: each call of it succeeded.
use openriak_operator.Prelude.{ok, ◌≡◌, refl, inl, inr, arith, Result-cases}
use openriak_operator.World.{Exec, History, ◌>>=◌}

pub bind-ok :
    {A B : Type 0} (m : Exec A) (f : A → Exec B) (h : History) (b : B)
    → ((m >>= f) h).0 ≡ ok b
    → (a : A) × ((m h).0 ≡ ok a) × ((m >>= f) h ≡ f a (m h).1)
bind-ok m f h b e = elim (Result-cases (m h).0) [
  | inl (x, failed) ↦ absurd (ground (arith, failed, e))
  | inr (a, succeeded) ↦ (a, succeeded, rw succeeded refl)
]
