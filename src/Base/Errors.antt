-- ===== src/Base/Errors.antt =====
-- A Go function that returns `(value, error)`. The error is the text of its message.
use mathlib.Core.Option.{none, some}
use Prim.Native.Nat.{ℕ}
use mathlib.Core.List.{List}
use mathlib.Core.Path.{◌≡◌, refl}

pub data Result {ℓ} (Value : Type ℓ) : Type ℓ where
  err : List ℕ → Result Value
  ok : Value → Result Value

infixl 5 ◌>>=◌
abbrev pub ◌>>=◌ {ℓ κ} :
    {Value : Type ℓ} {Next : Type κ} → Result Value → (Value → Result Next) → Result Next
err message >>= step = err message
ok v >>= step = step v

-- `if err != nil { return …, fmt.Errorf("…: %w", err) }`
abbrev pub map_err {ℓ} : {A : Type ℓ} → (List ℕ → List ℕ) → Result A → Result A
map_err f (ok a) = ok a
map_err f (err e) = err (f e)

pub ok-injective {ℓ} : {A : Type ℓ} {a b : A} → ok a ≡ ok b → a ≡ b
ok-injective h = cc

pub err-ne-ok {ℓ} : {A : Type ℓ} {a : A} {e : List ℕ} → ¬ (err e ≡ ok a)
err-ne-ok h = cc

-- What went before a step that returned a value returned one itself.
pub >>=-eq-ok {ℓ κ} :
    {Value : Type ℓ} {Next : Type κ} {out : Next} (first : Result Value)
    (step : Value → Result Next)
    → first >>= step ≡ ok out
    → (v : Value) × (first ≡ ok v) × (step v ≡ ok out)
>>=-eq-ok (err message) step returned = absurd (err-ne-ok returned)
>>=-eq-ok (ok v) step returned = (v, refl, returned)

pub map_err-eq-ok {ℓ} :
    {A : Type ℓ} (f : List ℕ → List ℕ) (m : Result A) {a : A} → map_err f m ≡ ok a → m ≡ ok a
map_err-eq-ok f (ok a) h = h
map_err-eq-ok f (err e) h = absurd (err-ne-ok h)

pub some-injective {ℓ} : {A : Type ℓ} {a b : A} → some a ≡ some b → a ≡ b
some-injective h = cc

pub none-ne-some {ℓ} : {A : Type ℓ} {a : A} → ¬ (none ≡ some a)
none-ne-some h = cc
