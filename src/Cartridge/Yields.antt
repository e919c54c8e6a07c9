-- ===== src/Cartridge/Yields.antt =====
-- What the values of a `Result` satisfy, through the early returns of crates/gb-core/src/cartridge.
use pockiva.Prelude.{◌≡◌, refl, Bool, true, false, if◌then◌else◌, arith}
use pockiva.Contracts.{Reason, Result, ok, err, panic, ◌>>=◌, ◌>>◌}
use pockiva.Cartridge.Header.{require}

-- What holds of every value that a result may have; no result panics.
abbrev pub Yields : {A : Type 0} → (A → Type 0) → Result A → Type 0
Yields P (ok value) = P value
Yields P (err reason) = Unit {0}
Yields P panic = ⊥

pub bind-Yields :
    {A C : Type 0} (P : A → Type 0) (Q : C → Type 0) (r : Result A) (next : A → Result C)
    → Yields P r
    → ((value : A) → P value → Yields Q (next value))
    → Yields Q (r >>= next)
bind-Yields P Q (ok value) next h k = k value h
bind-Yields P Q (err reason) next h k = tt
bind-Yields P Q panic next h k = absurd h

pub if-Yields :
    {A : Type 0} (P : A → Type 0) (c : Bool) (r r' : Result A)
    → (c ≡ true → Yields P r)
    → (c ≡ false → Yields P r')
    → Yields P (if c then r else r')
if-Yields P true r r' h k = h refl
if-Yields P false r r' h k = k refl

abbrev pub Anything : {A : Type 0} → A → Type 0
Anything value = Unit {0}

unfoldable pub is_panic : {A : Type 0} → Result A → Bool
is_panic (ok value) = false
is_panic (err reason) = false
is_panic panic = true

pub from_test : {A : Type 0} (r : Result A) → is_panic r ≡ false → Yields Anything r
unfolding is_panic
from_test (ok value) h = tt
from_test (err reason) h = tt
from_test panic h = absurd (ground arith)

pub require-Yields :
    {A : Type 0} (P : A → Type 0) (holds : Bool) (reason : Reason) (r : Result A)
    → (holds ≡ true → Yields P r)
    → Yields P (require holds reason >> r)
require-Yields P true reason r h = h refl
require-Yields P false reason r h = tt
