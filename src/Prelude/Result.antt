-- ===== src/Prelude/Result.antt =====
-- What a Go function with an error among its results returns: a value or that error.
use citadel_dnxproxy.Prelude.{◌≡◌, refl, ap, ◌⊎◌, inl, inr, Option, none, some}

pub data Result {ℓ} (Failure : Type 0) (Value : Type ℓ) : Type ℓ where
  err : Failure → Result Failure Value
  ok : Value → Result Failure Value

-- `v, err := r; if err != nil { return err }; next(v)`
infixl 5 ◌>>=◌
abbrev pub ◌>>=◌ {ℓ κ} :
    {Failure : Type 0} {Value : Type ℓ} {Next : Type κ}
    → Result Failure Value
    → (Value → Result Failure Next)
    → Result Failure Next
err failure >>= next = err failure
ok v >>= next = next v

-- An error in place of a missing value.
abbrev pub or_err {ℓ} :
    {Failure : Type 0} {Value : Type ℓ} → Option Value → Failure → Result Failure Value
or_err (some v) failure = ok v
or_err none failure = err failure

pub bind-ok :
    {Failure Value Next : Type 0} (r : Result Failure Value) (next : Value → Result Failure Next)
    → (n : Next) → (r >>= next) ≡ ok n
    → (v : Value) × (r ≡ ok v) × (next v ≡ ok n)
bind-ok (err failure) next n h = cc
bind-ok (ok v) next n h = (v, refl, h)

pub ok-injective :
    {Failure Value : Type 0} (v w : Value) → Path (Result Failure Value) (ok v) (ok w) → v ≡ w
ok-injective v w h = ap (λ r. elim r [ ok x ↦ x | err e ↦ v ]) h

pub Result-cases :
    {Failure Value : Type 0} (r : Result Failure Value)
    → ((e : Failure) × (r ≡ err e)) ⊎ ((v : Value) × (r ≡ ok v))
Result-cases (err e) = inl (e, refl)
Result-cases (ok v) = inr (v, refl)
