-- ===== src/Common/Outcome.antt =====
-- Results that may be missing, functions changed at one argument, and what holds of the result of
-- an operation, if it has one: the rules follow the way an operation is put together.
use Prim.Native.Nat.{ℕ}
use mathlib.Core.Path.{◌≡◌, refl, subst, ap}
use mathlib.Core.Bool.{Bool, true, false}
use mathlib.Core.Option.{Option, none, some}
use native.Mathlib.Omega.{arith}
use mod_audio_stream.Common.Tests.{◌==◌, ==_iff, if◌then◌else◌, if-false}

infixl 5 ◌>>=◌
abbrev pub ◌>>=◌ : {A C : Type 0} → Option A → (A → Option C) → Option C
none >>= f = none
some a >>= f = f a

abbrev pub update : {A : Type 0} → (ℕ → A) → ℕ → A → ℕ → A
update f i a j = if i == j then a else f j

-- A fault is not spoken of.
abbrev pub AllResults {ℓ} : {A : Type 0} → (A → Type ℓ) → Option A → Type ℓ
AllResults P none = Unit
AllResults P (some a) = P a

pub bind-AllResults {ℓ κ} :
    {A C : Type 0} (P : A → Type ℓ) (Q : C → Type κ) (m : Option A) (f : A → Option C)
    → AllResults P m
    → ((a : A) → P a → AllResults Q (f a))
    → AllResults Q (m >>= f)
bind-AllResults P Q none f h k = tt
bind-AllResults P Q (some a) f h k = k a h

-- The same with the equation for the value, as for a lookup.
pub lookup-AllResults {κ} :
    {A C : Type 0} (Q : C → Type κ) (m : Option A) (f : A → Option C)
    → ((a : A) → m ≡ some a → AllResults Q (f a))
    → AllResults Q (m >>= f)
lookup-AllResults Q none f k = tt
lookup-AllResults Q (some a) f k = k a refl

pub map-AllResults {ℓ κ} :
    {A : Type 0} (P : A → Type ℓ) (Q : A → Type κ) (m : Option A)
    → ((a : A) → P a → Q a)
    → AllResults P m
    → AllResults Q m
map-AllResults P Q none f h = tt
map-AllResults P Q (some a) f h = f a h

pub bind-some :
    {A C : Type 0} (m : Option A) (f : A → Option C) (a : A) → m ≡ some a → (m >>= f) ≡ f a
bind-some m f a e = ap (λ r. r >>= f) e

pub bind-none : {A C : Type 0} (m : Option A) (f : A → Option C) → m ≡ none → (m >>= f) ≡ none
bind-none m f e = ap (λ r. r >>= f) e

pub if-AllResults {ℓ} :
    {A : Type 0} (P : A → Type ℓ) (b : Bool) (x y : Option A)
    → (b ≡ true → AllResults P x)
    → (b ≡ false → AllResults P y)
    → AllResults P (if b then x else y)
if-AllResults P true x y h k = h refl
if-AllResults P false x y h k = k refl

pub result-AllResults {ℓ} :
    {A : Type 0} (P : A → Type ℓ) (m : Option A) {a : A} → AllResults P m → m ≡ some a → P a
result-AllResults P none {a = a} h e = cc
result-AllResults P (some b) {a = a} h e = let e' : b ≡ a = cc in subst P e' h

pub update-same : {A : Type 0} (f : ℕ → A) (i : ℕ) (a : A) → update f i a i ≡ a
update-same f i a = ground (arith, ==_iff i i)

pub update-other :
    {A : Type 0} (f : ℕ → A) (i j : ℕ) (a : A) → (i == j) ≡ false → update f i a j ≡ f j
update-other f i j a e = if-false _ _ e

pub some_inj {ℓ} : {A : Type ℓ} {a b : A} → some a ≡ some b → a ≡ b
some_inj {a = a} e = ap (λ o. elim o [ none ↦ a | some b ↦ b ]) e
