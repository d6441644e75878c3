-- ===== src/Prelude/Results.antt =====
-- What holds of every result of a computation that may end in an exception.
use liquidity_arena.Prelude.{
  ◌≡◌, refl, arith, subst, Bool, true, false, Option, none, some, ◌>>=◌, if◌then◌else◌,
}

abbrev pub Every {ℓ κ} : {A : Type ℓ} → (A → Type κ) → Option A → Type κ
Every P none = Unit
Every P (some a) = P a

pub Every-bind {ℓ κ λ'} :
    {A : Type ℓ} {B : Type κ} (P : B → Type λ') (r : Option A) (f : A → Option B)
    → ((a : A) → Every P (f a))
    → Every P (r >>= f)
Every-bind P none f h = tt
Every-bind P (some a) f h = h a

-- The same, where the first result is known to be one.
pub Every-bind_of {ℓ κ λ'} :
    {A : Type ℓ} {B : Type κ} (P : B → Type λ') (r : Option A) (f : A → Option B)
    → ((a : A) → r ≡ some a → Every P (f a))
    → Every P (r >>= f)
Every-bind_of P none f h = tt
Every-bind_of P (some a) f h = h a refl

pub Every-mono {ℓ κ λ'} :
    {A : Type ℓ} (P : A → Type κ) (Q : A → Type λ') (r : Option A)
    → ((a : A) → P a → Q a)
    → Every P r
    → Every Q r
Every-mono P Q none h p = tt
Every-mono P Q (some a) h p = h a p

pub Every-chain {ℓ κ λ' μ} :
    {A : Type ℓ} {B : Type κ} (P : A → Type λ') (Q : B → Type μ) (r : Option A) (f : A → Option B)
    → Every P r
    → ((a : A) → P a → Every Q (f a))
    → Every Q (r >>= f)
Every-chain P Q none f h k = tt
Every-chain P Q (some a) f h k = k a h

pub Every-some {ℓ κ} :
    {A : Type ℓ} (P : A → Type κ) (r : Option A) (a : A) → Every P r → r ≡ some a → P a
Every-some P r a h e = subst (Every P) e h

-- A predicate on the two results of a conditional.
pub either {ℓ κ} :
    {A : Type ℓ} (P : A → Type κ) (b : Bool) {x y : A} → P x → P y → P (if b then x else y)
either P true h k = h
either P false h k = k

pub by_case {ℓ κ} :
    {A : Type ℓ} (P : A → Type κ) (b : Bool) {x y : A}
    → (b ≡ true → P x)
    → (b ≡ false → P y)
    → P (if b then x else y)
by_case P true h k = h refl
by_case P false h k = k refl

-- The computation ends without an exception.
abbrev pub Returns {ℓ} : {A : Type ℓ} → Option A → Type ℓ
Returns {A = A} r = (a : A) × (r ≡ some a)

pub Returns-bind {ℓ κ} :
    {A : Type ℓ} {B : Type κ} (r : Option A) (f : A → Option B)
    → Returns r
    → ((a : A) → Returns (f a))
    → Returns (r >>= f)
Returns-bind none f (a, e) h = absurd (ground arith)
Returns-bind (some a) f r h = h a

-- The computation ends without an exception, in a value that satisfies P.
abbrev pub Gives {ℓ κ} : {A : Type ℓ} → (A → Type κ) → Option A → Type (ℓ ⊔ κ)
Gives {A = A} P r = (a : A) × (r ≡ some a) × P a

pub Gives-bind {ℓ κ λ' μ} :
    {A : Type ℓ} {B : Type κ} (Q : A → Type λ') (P : B → Type μ) (r : Option A) (f : A → Option B)
    → Gives Q r
    → ((a : A) → Q a → Gives P (f a))
    → Gives P (r >>= f)
Gives-bind Q P none f (a, e, q) h = absurd (ground arith)
Gives-bind Q P (some a) f (b, e, q) h = h a (subst Q (ground arith) q)
