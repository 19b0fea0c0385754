-- ===== src/Prelude/Result.antt =====
-- What a call of the runtime gives: a value, or a trap with the message of the source.
use Prim.Native.String.{String}
use mathlib.Core.Bool.{Bool, true, false}
use mathlib.Core.Path.{◌≡◌, refl, subst}

pub data Result {ℓ} (A : Type ℓ) : Type ℓ where
  ok : A → Result A
  trap : String → Result A

infixl 5 ◌>>=◌ ◌>>◌
abbrev pub ◌>>=◌ {ℓ κ} : {A : Type ℓ} {B : Type κ} → Result A → (A → Result B) → Result B
ok a >>= f = f a
trap e >>= f = trap e

abbrev pub ◌>>◌ {ℓ} : {B : Type ℓ} → Result (Unit {0}) → Result B → Result B
m >> k = m >>= λ _. k

-- `if !test { trap(message) }`, and the `assert!` macro.
abbrev pub guard : Bool → String → Result (Unit {0})
guard true e = ok tt
guard false e = trap e

abbrev pub assert : Bool → Result (Unit {0})
assert b = guard b "assertion failed"

-- A call that does not trap, and gives what satisfies a predicate.
abbrev pub Returns {ℓ κ} : {A : Type ℓ} → (A → Type κ) → Result A → Type (ℓ ⊔ κ)
Returns {A} P r = (a : A) × (r ≡ ok a) × P a

-- Where a call and what follows it succeed, the call does.
pub >>=-eq-ok {ℓ κ} :
    {A : Type ℓ} {B : Type κ} (call : Result A) (next : A → Result B) {last : B}
    → (call >>= next) ≡ ok last
    → Returns (λ a. next a ≡ ok last) call
>>=-eq-ok (trap message) next succeeds = absurd (cc succeeds)
>>=-eq-ok (ok a) next succeeds = (a, refl, succeeds)

pub >>=-Returns {ℓ κ} :
    {A : Type ℓ} {B : Type κ} (P : A → Type 0) (Q : B → Type 0) (m : Result A) (f : A → Result B)
    → Returns P m
    → ((a : A) → m ≡ ok a → P a → Returns Q (f a))
    → Returns Q (m >>= f)
>>=-Returns P Q (ok a) f (b, e, p) rest = rest a refl (subst P (cc e) p)
>>=-Returns P Q (trap s) f (b, e, p) rest = absurd (cc e)
