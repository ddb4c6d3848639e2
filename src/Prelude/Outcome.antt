-- ===== src/Prelude/Outcome.antt =====
-- Results of fallible code. `panic` stands for a Rust panic: an `unwrap` of `None` or `Err`.
use mathlib.Core.Path.{◌≡◌, refl, subst}
use mathlib.Core.Option.{Option, none, some}

pub data Result {ℓ κ} (E : Type ℓ) (A : Type κ) : Type (ℓ ⊔ κ) where
  ok : A → Result E A
  err : E → Result E A
  panic : Result E A

infixl 5 ◌>>=◌
abbrev pub ◌>>=◌ {ℓ κ μ} :
    {E : Type ℓ} {A : Type κ} {B : Type μ} → Result E A → (A → Result E B) → Result E B
panic >>= next = panic
err e >>= next = err e
ok a >>= next = next a

infixl 5 ◌>>◌
abbrev pub ◌>>◌ {ℓ μ} : {E : Type ℓ} {B : Type μ} → Result E (Unit {0}) → Result E B → Result E B
first >> second = first >>= λ _. second

-- `opt.ok_or(e)`
abbrev pub ok_or {ℓ κ} : {E : Type ℓ} {A : Type κ} → Option A → E → Result E A
ok_or none e = err e
ok_or (some a) e = ok a

-- `opt.unwrap()`
abbrev pub unwrap {ℓ κ} : {E : Type ℓ} {A : Type κ} → Option A → Result E A
unwrap none = panic
unwrap (some a) = ok a

-- `result.map_err(f)`, and `?` where the error has a `From`.
abbrev pub map_err {ℓ κ μ} :
    {E : Type ℓ} {F : Type κ} {A : Type μ} → (E → F) → Result E A → Result F A
map_err f (ok a) = ok a
map_err f (err e) = err (f e)
map_err f panic = panic

-- An error that is a panic: `result.unwrap()`.
abbrev pub or_panic {ℓ κ μ} : {E : Type ℓ} {F : Type κ} {A : Type μ} → Result E A → Result F A
or_panic (ok a) = ok a
or_panic (err e) = panic
or_panic panic = panic

-- `result.unwrap_or(a)`
abbrev pub unwrap_or {ℓ κ} : {E : Type ℓ} {A : Type κ} → A → Result E A → A
unwrap_or d (ok a) = a
unwrap_or d (err e) = d
unwrap_or d panic = d

-- What holds of the value of a computation that succeeds.
abbrev pub OnOk {ℓ κ μ} : {E : Type ℓ} {A : Type κ} → (A → Type μ) → Result E A → Type μ
OnOk P (ok a) = P a
OnOk P (err e) = Unit
OnOk P panic = Unit

pub OnOk-bind {ℓ κ μ ν} :
    {E : Type ℓ} {A : Type κ} {B : Type μ} (P : B → Type ν) (m : Result E A) (f : A → Result E B)
    → ((a : A) → m ≡ ok a → OnOk P (f a))
    → OnOk P (m >>= f)
OnOk-bind P (ok a) f h = h a refl
OnOk-bind P (err e) f h = tt
OnOk-bind P panic f h = tt

pub OnOk-elim {ℓ κ μ} :
    {E : Type ℓ} {A : Type κ} (P : A → Type μ) {m : Result E A} {a : A} → m ≡ ok a → OnOk P m → P a
OnOk-elim P e h = subst (OnOk P) e h

pub OnOk-imply {ℓ κ μ ν} :
    {E : Type ℓ} {A : Type κ} {P : A → Type μ} {Q : A → Type ν} (m : Result E A)
    → ((a : A) → P a → Q a)
    → OnOk P m
    → OnOk Q m
OnOk-imply (ok a) f h = f a h
OnOk-imply (err e) f h = tt
OnOk-imply panic f h = tt

pub OnOk-map_err {ℓ κ μ ν} :
    {E : Type ℓ} {F : Type κ} {A : Type μ} (P : A → Type ν) (f : E → F) (r : Result E A)
    → OnOk P r
    → OnOk P (map_err f r)
OnOk-map_err P f (ok a) h = h
OnOk-map_err P f (err e) h = tt
OnOk-map_err P f panic h = tt

pub OnOk-both {ℓ κ μ ν} :
    {E : Type ℓ} {A : Type κ} (P : A → Type μ) (Q : A → Type ν) (m : Result E A)
    → OnOk P m
    → OnOk Q m
    → OnOk (λ a. P a × Q a) m
OnOk-both P Q (ok a) h k = (h, k)
OnOk-both P Q (err e) h k = tt
OnOk-both P Q panic h k = tt
