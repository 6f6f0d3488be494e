-- ===== src/Base/Outcomes.antt =====
-- What a kernel routine does: it returns, it stops the kernel (a failed KASSERT, a panic, or a
-- NULL dereference), or it has used up the rounds that its loop was given.
use mathlib.Core.Path.{◌≡◌, refl, ap}
use mathlib.Core.Bool.{Bool, true, false}
use mathlib.Core.Option.{Option, none, some}
use os161_project_c.Base.Tests.{if◌then◌else◌}
use Prim.Native.Nat.{ℕ, zero, suc}

pub data Outcome {ℓ} (A : Type ℓ) : Type ℓ where
  ok : A → Outcome A
  panic : Outcome A
  out_of_fuel : Outcome A

-- `next` runs only after a routine that has returned.
infixl 5 ◌>>=◌ ◌>>◌
abbrev pub ◌>>=◌ {κ ℓ} :
    {X : Type κ} {Y : Type ℓ} (o : Outcome X) (next : X → Outcome Y) → Outcome Y
panic >>= next = panic
out_of_fuel >>= next = out_of_fuel
ok x >>= next = next x

abbrev pub ◌>>◌ {ℓ} : {Y : Type ℓ} (check : Outcome (Unit {0})) (rest : Outcome Y) → Outcome Y
check >> rest = check >>= λ done. rest

abbrev pub kassert : Bool → Outcome (Unit {0})
kassert true = ok tt
kassert false = panic

-- `*p`: a NULL pointer faults in the kernel.
abbrev pub deref {ℓ} : {A : Type ℓ} → Option A → Outcome A
deref (some a) = ok a
deref none = panic

-- Where the whole returned, both steps did.
pub >>=-eq-ok {κ ℓ} :
    {X : Type κ} {Y : Type ℓ} (o : Outcome X) (next : X → Outcome Y) {y : Y}
    → (o >>= next) ≡ ok y
    → (x : X) × (o ≡ ok x) × (next x ≡ ok y)
>>=-eq-ok panic next whole = cc
>>=-eq-ok out_of_fuel next whole = cc
>>=-eq-ok (ok x) next whole = (x, refl, whole)

-- `for (i = 0; i < n; i++)` over a body that may stop the kernel.
unfoldable pub for_each {ℓ} : {S : Type ℓ} → ℕ → (ℕ → S → Outcome S) → S → Outcome S
for_each zero body s = ok s
for_each (suc n) body s = for_each n body s >>= body n

or_else {ℓ} : {A : Type ℓ} → A → Outcome A → A
or_else d (ok a) = a
or_else d panic = d
or_else d out_of_fuel = d

ok-injective {ℓ} : {A : Type ℓ} {a b : A} → ok a ≡ ok b → a ≡ b
unfolding or_else
ok-injective {a} e = ap (or_else a) e

-- The routine, if it returns, returns what satisfies `P`.
pub data Ensures {ℓ κ} {A : Type ℓ} (P : A → Type κ) : Outcome A → Type (ℓ ⊔ κ) where
  returns : {a : A} → P a → Ensures P (ok a)
  stops : Ensures P panic
  exhausted : Ensures P out_of_fuel

pub Ensures-bind {ℓ ℓ' κ κ'} :
    {A : Type ℓ} {B : Type ℓ'} {P : A → Type κ} {Q : B → Type κ'} {m : Outcome A}
    {f : A → Outcome B}
    → Ensures P m
    → ((a : A) → P a → Ensures Q (f a))
    → Ensures Q (m >>= f)
Ensures-bind (returns p) next = next _ p
Ensures-bind stops next = stops
Ensures-bind exhausted next = exhausted

-- A postcondition of the rest alone.
pub Ensures-then {ℓ ℓ' κ} :
    {A : Type ℓ} {B : Type ℓ'} {Q : B → Type κ} (m : Outcome A) {f : A → Outcome B}
    → ((a : A) → Ensures Q (f a))
    → Ensures Q (m >>= f)
Ensures-then (ok a) next = next a
Ensures-then panic next = stops
Ensures-then out_of_fuel next = exhausted

-- An assertion that passes is a fact for the rest.
pub Ensures-assert {ℓ κ} :
    {B : Type ℓ} {Q : B → Type κ} (b : Bool) {k : Outcome B}
    → (b ≡ true → Ensures Q k)
    → Ensures Q (kassert b >> k)
Ensures-assert true h = h refl
Ensures-assert false h = stops

-- The two branches of a test.
pub Ensures-if {ℓ κ} :
    {B : Type ℓ} {Q : B → Type κ} (b : Bool) {k k' : Outcome B}
    → (b ≡ true → Ensures Q k)
    → (b ≡ false → Ensures Q k')
    → Ensures Q (if b then k else k')
Ensures-if true h h' = h refl
Ensures-if false h h' = h' refl

-- What a routine ensures is true of what it returns.
pub Ensures-ok {ℓ κ} :
    {A : Type ℓ} {P : A → Type κ} {m : Outcome A} {a : A} → Ensures P m → m ≡ ok a → P a
Ensures-ok {P} (returns p) e = rw (← ok-injective e) p
Ensures-ok stops e = cc
Ensures-ok exhausted e = cc
