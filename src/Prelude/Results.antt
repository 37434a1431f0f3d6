-- ===== src/Prelude/Results.antt =====
-- What holds of a result that may be a throw.
use forex_remote_copy_tradin.Prelude.{Option, none, some, option_bind, option_map}

-- What holds of the result, unless it is a throw.
abbrev pub IfSome {ℓ κ} : {A : Type ℓ} → (A → Type κ) → Option A → Type κ
IfSome P none = Unit
IfSome P (some x) = P x

pub IfSome-bind {ℓ κ ι μ} :
    {A : Type ℓ} {B : Type κ} (P : A → Type ι) (Q : B → Type μ) (o : Option A) (f : A → Option B)
    → IfSome P o
    → ((x : A) → P x → IfSome Q (f x))
    → IfSome Q (option_bind o f)
IfSome-bind P Q none f h next = tt
IfSome-bind P Q (some x) f h next = next x h

pub IfSome-weaken {ℓ κ ι} :
    {A : Type ℓ} (P : A → Type κ) (Q : A → Type ι) (o : Option A)
    → IfSome P o
    → ((x : A) → P x → Q x)
    → IfSome Q o
IfSome-weaken P Q none h weaker = tt
IfSome-weaken P Q (some x) h weaker = weaker x h

pub IfSome-map {ℓ κ ι μ} :
    {A : Type ℓ} {B : Type κ} (P : A → Type ι) (Q : B → Type μ) (f : A → B) (o : Option A)
    → IfSome P o
    → ((x : A) → P x → Q (f x))
    → IfSome Q (option_map f o)
IfSome-map P Q f none h next = tt
IfSome-map P Q f (some x) h next = next x h
