-- ===== src/Reader/Outcomes.antt =====
-- What the outcome of a function of the reader returns, where there is fuel enough.
use lone.Prelude.{Bool, true, false, Option, none, some, ◌≡◌, refl, if◌then◌else◌}
use lone.Reader.{Outcome, done, exits, out_of_fuel, ◌>>=◌}

-- The outcome is no lack of fuel, and what it returns has the property.
abbrev pub Post {ℓ} : {A : Type ℓ} → (A → Type 0) → Outcome A → Type 0
Post P (done a) = P a
Post P exits = Unit {0}
Post P out_of_fuel = ⊥

pub Post-bind {ℓ κ} :
    {A : Type ℓ} {B : Type κ} (P : A → Type 0) (Q : B → Type 0) (o : Outcome A) (k : A → Outcome B)
    → Post P o
    → ((a : A) → P a → Post Q (k a))
    → Post Q (o >>= k)
Post-bind P Q (done a) k h f = f a h
Post-bind P Q exits k h f = tt
Post-bind P Q out_of_fuel k h f = absurd h

pub Post-mono {ℓ} :
    {A : Type ℓ} (P Q : A → Type 0) (o : Outcome A) → Post P o → ((a : A) → P a → Q a) → Post Q o
Post-mono P Q (done a) h f = f a h
Post-mono P Q exits h f = tt
Post-mono P Q out_of_fuel h f = absurd h

pub Post-elim {ℓ} :
    {A : Type ℓ} (P : A → Type 0) (b : Bool) (x y : Outcome A)
    → (b ≡ true → Post P x)
    → (b ≡ false → Post P y)
    → Post P (elim b [ true ↦ x | false ↦ y ])
Post-elim P true x y f g = f refl
Post-elim P false x y f g = g refl

pub Post-if {ℓ} :
    {A : Type ℓ} (P : A → Type 0) (b : Bool) (x y : Outcome A)
    → (b ≡ true → Post P x)
    → (b ≡ false → Post P y)
    → Post P (if b then x else y)
Post-if P true x y f g = f refl
Post-if P false x y f g = g refl

pub Post-option {ℓ κ} :
    {A : Type ℓ} {B : Type κ} (P : A → Type 0) (o : Option B) (x : Outcome A) (y : B → Outcome A)
    → Post P x
    → ((b : B) → Post P (y b))
    → Post P (elim o [ none ↦ x | some b ↦ y b ])
Post-option P none x y f g = f
Post-option P (some b) x y f g = g b
