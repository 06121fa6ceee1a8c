-- ===== src/Domain/Bind.antt =====
-- Taking apart a chain of fallible steps that succeeds.
use turjmp.Prelude.{Bool, true, false, ◌≡◌, ◌⊎◌, inl, inr, refl, ap}
use turjmp.Domain.{Error, Result, ok, err, ◌>>=◌, ◌>>◌, guard}

pub ok_injective {ℓ} : {A : Type ℓ} (a b : A) → ok a ≡ ok b → a ≡ b
ok_injective {A = A} a b e = ap (λ (r : Result A). elim r [ ok x ↦ x | err x ↦ a ]) e

pub bind_ok {ℓ κ} :
    {A : Type ℓ} {B : Type κ} (m : Result A) (f : A → Result B) (b : B)
    → m >>= f ≡ ok b
    → (a : A) × ((m ≡ ok a) × (f a ≡ ok b))
bind_ok (ok a) f b h = (a, (refl, h))
bind_ok (err e) f b h = absurd (cc h)

pub guard_ok {ℓ} :
    {B : Type ℓ} (t : Bool) (e : Error) (k : Result B) (b : B)
    → guard t e >> k ≡ ok b
    → (t ≡ true) × (k ≡ ok b)
guard_ok true e k b h = (refl, h)
guard_ok false e k b h = absurd (cc h)

pub Result-cases {ℓ} :
    {A : Type ℓ} (r : Result A) → ((e : Error) × (r ≡ err e)) ⊎ ((a : A) × (r ≡ ok a))
Result-cases (ok a) = inr (a, refl)
Result-cases (err e) = inl (e, refl)
