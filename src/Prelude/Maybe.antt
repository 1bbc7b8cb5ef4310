-- ===== src/Prelude/Maybe.antt =====
-- Steps that may fault: `none` stands for an access outside the memory that the source may touch.
use mathlib.Core.Path.{◌≡◌, refl}
use mathlib.Core.Option.{Option, none, some}

infixl 5 ◌>>=◌
abbrev pub ◌>>=◌ {ℓ κ} : {A : Type ℓ} {B : Type κ} → Option A → (A → Option B) → Option B
none >>= f = none
some a >>= f = f a

-- The step returns, with a value that satisfies `P`.
abbrev pub Returns {ℓ κ} : {A : Type ℓ} → (A → Type κ) → Option A → Type (ℓ ⊔ κ)
Returns {A} P r = (a : A) × (r ≡ some a) × P a

module _ {ℓ κ} {A : Type ℓ} {B : Type κ} where
  pub >>=-eq-some :
      (m : Option A) (f : A → Option B) {b : B}
      → (m >>= f) ≡ some b
      → (a : A) × (m ≡ some a) × (f a ≡ some b)
  >>=-eq-some none f h = cc
  >>=-eq-some (some a) f h = (a, refl, h)

  pub >>=-of_some :
      {m : Option A} (f : A → Option B) {a : A} {r : Option B}
      → m ≡ some a
      → f a ≡ r
      → (m >>= f) ≡ r
  >>=-of_some f e h = rw e h

module _ {ℓ κ ℓ' κ'} {A : Type ℓ} {B : Type κ} {P : A → Type ℓ'} {Q : B → Type κ'} where
  pub Returns-bind :
      {m : Option A} {f : A → Option B}
      → Returns P m
      → ((a : A) → P a → Returns Q (f a))
      → Returns Q (m >>= f)
  Returns-bind (a, e, p) k = rw e (k a p)

module _ {ℓ κ κ'} {A : Type ℓ} {B : Type κ} {Q : B → Type κ'} where
  pub Returns-some :
      {m : Option A} (f : A → Option B) {a : A} → m ≡ some a → Returns Q (f a) → Returns Q (m >>= f)
  Returns-some f e (b, e', q) = (b, >>=-of_some f e e', q)

module _ {ℓ κ κ'} {A : Type ℓ} {P : A → Type κ} {Q : A → Type κ'} where
  pub Returns-map : {m : Option A} → Returns P m → ((a : A) → P a → Q a) → Returns Q m
  Returns-map (a, e, p) k = (a, e, k a p)

pub some_injective {ℓ} : {A : Type ℓ} {a b : A} → some a ≡ some b → a ≡ b
some_injective e = cc

pub bind_assoc {ℓ κ ℓ'} :
    {A : Type ℓ} {B : Type κ} {C : Type ℓ'} (m : Option A) (f : A → Option B) (g : B → Option C)
    → (m >>= λ a. f a >>= g) ≡ (m >>= f >>= g)
bind_assoc none f g = refl
bind_assoc (some a) f g = refl

pub bind_none {ℓ κ} : {A : Type ℓ} {B : Type κ} (m : Option A) → ◌>>=◌ {B = B} m (λ _. none) ≡ none
bind_none none = refl
bind_none (some a) = refl
