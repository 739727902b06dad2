-- ===== src/Prelude/Results.antt =====
-- Go's pair of a value and an error, as a sum over the error type of a component, and the database
-- transaction that rolls back on an error.
use mathlib.Core.Bool.{Bool, true, false}
use mathlib.Core.Path.{◌≡◌, refl}
use mathlib.Core.Logic.{◌⊎◌, inl, inr}
use mathlib.Core.Option.{Option, none, some}

pub data Result {ℓ} (E : Type 0) (A : Type ℓ) : Type ℓ where
  ok : A → Result E A
  err : E → Result E A

infixl 5 ◌>>=◌ ◌>>◌
abbrev pub ◌>>=◌ {ℓ κ} :
    {E : Type 0} {A : Type ℓ} {B : Type κ} → Result E A → (A → Result E B) → Result E B
ok a >>= f = f a
err e >>= f = err e

abbrev pub ◌>>◌ {ℓ} : {E : Type 0} {B : Type ℓ} → Result E (Unit {0}) → Result E B → Result E B
m >> k = m >>= λ _. k

-- `if test { return err }`.
abbrev pub fail_if : {E : Type 0} → Bool → E → Result E (Unit {0})
fail_if true e = err e
fail_if false e = ok tt

abbrev pub or_fail {ℓ} : {E : Type 0} {A : Type ℓ} → Option A → E → Result E A
or_fail none e = err e
or_fail (some a) e = ok a

-- `defer tx.Rollback(ctx)`: what an error leaves behind is the database before the transaction.
module _ {E : Type 0} {A : Type 0} {D : Type 0} where
  abbrev pub transact : D → Result E (A × D) → Result E A × D
  transact db (ok (a, db')) = (ok a, db')
  transact db (err e) = (err e, db)

abbrev pub is_ok {ℓ} : {E : Type 0} {A : Type ℓ} → Result E A → Bool
is_ok (ok _) = true
is_ok (err _) = false

pub Result-cases {ℓ} :
    {E : Type 0} {A : Type ℓ} (r : Result E A) → ((a : A) × (r ≡ ok a)) ⊎ ((e : E) × (r ≡ err e))
Result-cases (ok a) = inl (a, refl)
Result-cases (err e) = inr (e, refl)

-- A transaction that returns an error has left the database as it was.
pub transact_err :
    {E A D : Type 0} (db : D) (r : Result E (A × D)) (e : E)
    → (transact db r).0 ≡ err e
    → (transact db r).1 ≡ db
transact_err db (ok (a, db')) e h = cc
transact_err db (err e') e h = refl

-- A chain that succeeds has succeeded in its first part.
pub bind_inv {ℓ κ} :
    {E : Type 0} {A : Type ℓ} {B : Type κ} (m : Result E A) (f : A → Result E B) (b : B)
    → (m >>= f) ≡ ok b
    → (a : A) × (m ≡ ok a) × (f a ≡ ok b)
bind_inv (ok a) f b h = (a, refl, h)
bind_inv (err e) f b h = cc

pub transact_ok :
    {E A D : Type 0} (db : D) (r : Result E (A × D)) (a : A)
    → (transact db r).0 ≡ ok a
    → r ≡ ok (a, (transact db r).1)
transact_ok db (ok (a', db')) a h = cc
transact_ok db (err e) a h = cc

-- What holds of the database before a transaction and of what it commits holds after it.
pub transact_keeps {κ} :
    {E A D : Type 0} (P : D → Type κ) (db : D) (r : Result E (A × D))
    → P db
    → ((a : A) (after : D) → r ≡ ok (a, after) → P after)
    → P (transact db r).1
transact_keeps P db (ok (a, after)) h k = k a after refl
transact_keeps P db (err e) h k = h
