-- ===== src/Bitio/Reader/Every.antt =====
-- What holds of every value that a read can return, whatever the reader holds.
use go_flac.Prelude.{◌≡◌, refl, Bool, true, false, if◌then◌else◌}
use go_flac.Errors.{Error}
use go_flac.Bitio.Reader.{Run, ok, err, M, and_then, ◌>>=◌, pure, fail}

abbrev pub Returns : {A : Type 0} → (A → Type 0) → Run A → Type 0
Returns P (ok a b) = P a
Returns P (err e b) = Unit

abbrev pub Every : {A : Type 0} → (A → Type 0) → M A → Type 0
Every P m = (b : _) → Returns P (m b)

Returns-and_then :
    {A B : Type 0} (P : A → Type 0) (Q : B → Type 0) (r : Run A) (f : A → M B)
    → Returns P r
    → ((a : A) → P a → Every Q (f a))
    → Returns Q (and_then r f)
Returns-and_then P Q (ok a b) f p h = h a p b
Returns-and_then P Q (err e b) f p h = tt

-- One read and then another.
pub Every-then :
    {A B : Type 0} (P : A → Type 0) (Q : B → Type 0) (m : M A) (f : A → M B)
    → Every P m
    → ((a : A) → P a → Every Q (f a))
    → Every Q (m >>= f)
Every-then P Q m f p h b = Returns-and_then P Q (m b) f (p b) h

-- A read of which nothing need be known.
pub Every-any : {A : Type 0} (m : M A) → Every (λ a. Unit) m
Every-any m b = go (m b)
  where
    go : {A : Type 0} (r : Run A) → Returns (λ (a : A). Unit) r
    go (ok a b) = tt
    go (err e b) = tt

pub Every-if :
    {A : Type 0} (P : A → Type 0) (c : Bool) (m k : M A)
    → Every P m
    → Every P k
    → Every P (if c then m else k)
Every-if P true m k hm hk = hm
Every-if P false m k hm hk = hk

-- Each branch with what its test says.
pub Every-test :
    {A : Type 0} (P : A → Type 0) (c : Bool) (m k : M A)
    → (c ≡ true → Every P m)
    → (c ≡ false → Every P k)
    → Every P (if c then m else k)
Every-test P true m k hm hk = hm refl
Every-test P false m k hm hk = hk refl

pub Every-weaken :
    {A : Type 0} (P Q : A → Type 0) (m : M A) → ((a : A) → P a → Q a) → Every P m → Every Q m
Every-weaken P Q m f h b = go (m b) (h b)
  where
    go : (r : Run _) → Returns P r → Returns Q r
    go (ok a t) p = f a p
    go (err e t) p = tt

pub Every-pure : {A : Type 0} (P : A → Type 0) (a : A) → P a → Every P (pure a)
Every-pure P a p b = p

pub Every-fail : {A : Type 0} (P : A → Type 0) (e : Error) → Every P (fail e)
Every-fail P e b = tt
