-- ===== src/Prelude/Results.antt =====
-- Functions that return `(value, error)`.
use mathlib.Core.Path.{◌≡◌, refl}
use mathlib.Core.Logic.{◌⊎◌, inl, inr}
use mathlib.Core.Option.{Option, none, some}
use auto_mock_tools.Prelude.Texts.{Bytes}
use Prim.Native.Nat.{ℕ}

-- The errors that the program makes or passes on; a text is the scenario's name.
pub data Error : Type 0 where
  read_failed invalid_json invalid_record invalid_url marshal_failed write_failed : Error
  invalid_yaml no_scenarios : Error
  missing_name : ℕ → Error
  missing_path missing_file invalid_filter rejected_filter : Bytes → Error
  load_response : Bytes → Error → Error

-- what a function returns in Go as `(value, error)`
pub data Result {ℓ} (V : Type ℓ) : Type ℓ where
  err : Error → Result V
  ok : V → Result V

abbrev pub or_error {ℓ} : {V : Type ℓ} → Error → Option V → Result V
or_error e none = err e
or_error e (some v) = ok v

-- `if err != nil { return nil, err }`, and the rest of the function on the value
abbrev pub ◌>>=◌ {ℓ κ} : {V : Type ℓ} {W : Type κ} → Result V → (V → Result W) → Result W
err e >>= rest = err e
ok v >>= rest = rest v

infixl 5 ◌>>=◌
-- Inversion of a successful bind.
pub >>=-eq-ok {ℓ κ} :
    {V : Type ℓ} {W : Type κ} (o : Result V) (rest : V → Result W) {w : W}
    → (o >>= rest) ≡ ok w
    → (v : V) × (o ≡ ok v) × (rest v ≡ ok w)
>>=-eq-ok (err e) rest h = cc
>>=-eq-ok (ok v) rest h = (v, refl, h)

-- the first answer of two
abbrev pub or_else {ℓ} : {A : Type ℓ} → Option A → Option A → Option A
or_else none next = next
or_else (some a) next = some a

pub Result-cases {ℓ} :
    {A : Type ℓ} (r : Result A) → ((a : A) × (r ≡ ok a)) ⊎ ((e : Error) × (r ≡ err e))
Result-cases (ok a) = inl (a, refl)
Result-cases (err e) = inr (e, refl)

pub ok_injective {ℓ} : {A : Type ℓ} {a b : A} → ok a ≡ ok b → a ≡ b
ok_injective e = cc

pub some_injective {ℓ} : {A : Type ℓ} {a b : A} → some a ≡ some b → a ≡ b
some_injective e = cc
