-- ===== src/Monitor/Steps.antt =====
-- What a chain of steps that loads says of each step.
use heartpost.Common.{◌≡◌, refl, Bool, true, false, arith}
use heartpost.Monitor.{Load, loaded, rejected, LoadError, require, ◌>>=◌, ◌>>◌}

-- A step that loads has loaded what it waits for.
pub bind_inv :
    {A B : Type 0} (m : Load A) (f : A → Load B) (b : B)
    → (m >>= f) ≡ loaded b
    → (a : A) × (m ≡ loaded a) × (f a ≡ loaded b)
bind_inv (loaded a) f b h = (a, refl, h)
bind_inv (rejected e) f b h = absurd (ground arith)

pub require_inv :
    {B : Type 0} (c : Bool) (e : LoadError) (k : Load B) (b : B)
    → (require c e >> k) ≡ loaded b
    → (c ≡ true) × (k ≡ loaded b)
require_inv true e k b h = (refl, h)
require_inv false e k b h = absurd (ground arith)

-- The same, handed on to what follows.
pub bind_then :
    {A B P : Type 0} (m : Load A) (f : A → Load B) (b : B)
    → (m >>= f) ≡ loaded b
    → ((a : A) → m ≡ loaded a → f a ≡ loaded b → P)
    → P
bind_then m f b h k = let (a, e, h') = bind_inv m f b h in k a e h'

pub require_then :
    {B P : Type 0} (c : Bool) (e : LoadError) (m : Load B) (b : B)
    → (require c e >> m) ≡ loaded b
    → (c ≡ true → m ≡ loaded b → P)
    → P
require_then c e m b h k = let (t, h') = require_inv c e m b h in k t h'

value_or : {A : Type 0} → A → Load A → A
value_or a (loaded b) = b
value_or a (rejected e) = a

pub loaded_injective : {A : Type 0} (a b : A) → loaded a ≡ loaded b → a ≡ b
unfolding value_or
loaded_injective a b e = λ i. value_or a (e i)
