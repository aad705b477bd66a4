-- ===== src/World/Lands.antt =====
-- What holds of the value and the state where an operation returns, and the rules for chains.
use gca.Base.{◌≡◌, refl, subst, Bool, true, false, if◌then◌else◌}
use gca.Roles.{Answer, done, raises, waits}
use gca.World.{World, M, resume, recover, release_after, ◌>>=◌}

-- Where the operation returns a value, the value and the state are as said.
abbrev pub Lands : {A : Type 0} → (World → A → Type 0) → World × Answer A → Type 0
Lands {A} P r = (a : A) → r.1 ≡ done a → P r.0 a

pub done-Lands :
    {A : Type 0} (P : World → A → Type 0) (w : World) (a : A) → P w a → Lands P (w, done a)
done-Lands P w a here b e = let same : a ≡ b = cc in subst (P w) same here

resume-Lands :
    {A B : Type 0} (Q : World → A → Type 0) (P : World → B → Type 0) (f : A → M B) (w : World)
    (answer : Answer A)
    → Lands Q (w, answer)
    → ((a : A) (v : World) → Q v a → Lands P (f a v))
    → Lands P (resume f w answer)
resume-Lands Q P f w (done a) first next = next a w (first a refl)
resume-Lands Q P f w (raises e) first next = λ b h. cc
resume-Lands Q P f w waits first next = λ b h. cc

-- The rule for a chain of two operations
pub bind-Lands :
    {A B : Type 0} (Q : World → A → Type 0) (P : World → B → Type 0) (m : M A) (f : A → M B)
    (w : World)
    → Lands Q (m w)
    → ((a : A) (v : World) → Q v a → Lands P (f a v))
    → Lands P ((m >>= f) w)
bind-Lands Q P m f w first next = resume-Lands Q P f (m w).0 (m w).1 first next

-- Whatever the first of two operations does
pub then-Lands :
    {A B : Type 0} (P : World → B → Type 0) (m : M A) (f : A → M B) (w : World)
    → ((a : A) (v : World) → Lands P (f a v))
    → Lands P ((m >>= f) w)
then-Lands P m f w next = bind-Lands (λ v a. Unit {0}) P m f w (λ a e. tt) (λ a v u. next a v)

pub recover-Lands :
    {A : Type 0} (P : World → A → Type 0) (cleanup : World → World) (w : World) (answer : Answer A)
    → Lands P (w, answer)
    → Lands P (recover cleanup w answer)
recover-Lands P cleanup w (done a) h = h
recover-Lands P cleanup w (raises e) h = λ a x. cc
recover-Lands P cleanup w waits h = λ a x. cc

pub release_after-Lands :
    {A : Type 0} (P : World → A → Type 0) (cleanup : World → World) (w : World) (answer : Answer A)
    → ((a : A) → P w a → P (cleanup w) a)
    → Lands P (w, answer)
    → Lands P (release_after cleanup w answer)
release_after-Lands P cleanup w (done a) keep h = done-Lands P (cleanup w) a (keep a (h a refl))
release_after-Lands P cleanup w (raises e) keep h = λ a x. cc
release_after-Lands P cleanup w waits keep h = λ a x. cc

pub if-Lands :
    {A : Type 0} (P : World → A → Type 0) (b : Bool) (x y : World × Answer A)
    → (b ≡ true → Lands P x)
    → (b ≡ false → Lands P y)
    → Lands P (if b then x else y)
if-Lands P true x y p q = p refl
if-Lands P false x y p q = q refl
