-- ===== src/World/Spares.antt =====
-- A relation between two states of the world: the bodies of the handles and the beginnings of the
-- pages are the same, and what a root handle holds stays in the lookup and among the entries of its
-- page.
use gca.Base.{
  ℕ, ◌+◌, ◌≤◌, ◌<◌, ◌≡◌, refl, sym, ap, ◌∙◌, subst, ◌⊎◌, inl, inr, In, arith, List, [], ◌∷◌,
}
use gca.Handle.{Handle}
use gca.Handle.Body.{
  Body, body, SameBodies, SameBodies-refl, SameBodies-trans, on_handle-SameBodies,
}
use gca.Page.{Entry, u64}
use gca.Roles.{Answer, done, raises, waits}
use gca.World.{PageState, World, M, ◌>>=◌, ◌>>◌, resume, recover, on_error, change_handle}

-- A handle that the lookup gives lies at the address it was looked up by.
abbrev pub IsPlaced : World → Type 0
IsPlaced w = (a : ℕ) → 0 < w.lookup a → (w.heap (w.lookup a)).address ≡ a

-- An object lies at the address, and it has a root handle.
pub record IsRooted (w : World) (a : ℕ) : Type 0 where
  pub known : 0 < w.lookup a
  pub held : 0 < (w.heap (w.lookup a)).root_handle_count

-- Where the entry's object lies
abbrev pub place : PageState → Entry → ℕ
place p e = u64 (p.begin + e.offset)

-- The weights of the entries added up
unfoldable pub weigh : (Entry → ℕ) → List Entry → ℕ
weigh weight [] = 0
weigh weight (e ∷ es) = weight e + weigh weight es

-- Entries go and none comes: whatever each weighs, together they weigh no more.
pub record Spares (w w' : World) : Type 0 where
  pub count : w'.gc_count ≡ w.gc_count
  pub large : w'.large_objects ≡ w.large_objects
  pub bodies : SameBodies w.heap w'.heap
  pub begins : (p : ℕ) → (w'.page p).begin ≡ (w.page p).begin
  pub forgets : (a : ℕ) → (w'.lookup a ≡ w.lookup a) ⊎ (w'.lookup a ≡ 0)
  pub finds : (a : ℕ) → IsRooted w a → w'.lookup a ≡ w.lookup a
  pub keeps :
      (p : ℕ) (e : Entry)
      → IsRooted w (place (w.page p) e)
      → In e (w.page p).entries
      → In e (w'.page p).entries
  pub thins :
      (weight : Entry → ℕ) (p : ℕ)
      → weigh weight (w'.page p).entries ≤ weigh weight (w.page p).entries

pub Spares-refl : (w : World) → Spares w w
Spares-refl w = record {
  count = refl;
  large = refl;
  bodies = SameBodies-refl w.heap;
  begins = λ p. refl;
  forgets = λ a. inl refl;
  finds = λ a r. refl;
  keeps = λ p e r m. m;
  thins = λ weight p. omega arith;
}

module _ {w w' : World} (s : Spares w w') where
  pub IsRooted-Spares : (a : ℕ) → IsRooted w a → IsRooted w' a
  IsRooted-Spares a r =
      let found : w'.lookup a ≡ w.lookup a = s.finds a r in
      let counts : (w'.heap (w.lookup a)).root_handle_count
          ≡ (w.heap (w.lookup a)).root_handle_count =
        ap (λ (b : Body). b.roots) (s.bodies.same (w.lookup a)) in
      record {
        known = omega (arith, found, r.known);
        held = rw found (omega (arith, counts, r.held));
      }

  pub IsPlaced-Spares : IsPlaced w → IsPlaced w'
  IsPlaced-Spares placed a known = elim (s.forgets a) [
    | inl same ↦ rw same (
        ap (λ (b : Body). b.address) (s.bodies.same (w.lookup a))
        ∙ placed a (omega (arith, known, same)))
    | inr gone ↦ absurd (omega (arith, known, gone))
  ]

pub Spares-trans : {w mid w' : World} → Spares w mid → Spares mid w' → Spares w w'
Spares-trans {w} {mid} {w'} s t = record {
  count = t.count ∙ s.count;
  large = t.large ∙ s.large;
  bodies = SameBodies-trans s.bodies t.bodies;
  begins = λ p. t.begins p ∙ s.begins p;
  forgets = λ a. ground (arith, s.forgets a, t.forgets a);
  finds = λ a r. t.finds a (IsRooted-Spares s a r) ∙ s.finds a r;
  keeps = λ p e r m.
      t.keeps p e
        (subst (λ b. IsRooted mid (u64 (b + e.offset))) (sym (s.begins p)) (IsRooted-Spares s _ r))
        (s.keeps p e r m);
  thins = λ weight p. omega (arith, s.thins weight p, t.thins weight p);
}

-- A fact about the state that the first operation establishes and the second keeps
pub resume-lands :
    {A B : Type 0} (P : World → Type 0) (f : A → M B) (w : World) (answer : Answer A)
    → P w
    → ((a : A) → P (f a w).0)
    → P (resume f w answer).0
resume-lands P f w (done a) here next = next a
resume-lands P f w (raises e) here next = here
resume-lands P f w waits here next = here

resume-Spares :
    {A B : Type 0} (f : A → M B) (w w' : World) (answer : Answer A)
    → Spares w w'
    → ((a : A) → answer ≡ done a → Spares w' (f a w').0)
    → Spares w (resume f w' answer).0
resume-Spares f w w' (done a) first next = Spares-trans first (next a refl)
resume-Spares f w w' (raises e) first next = first
resume-Spares f w w' waits first next = first

-- The rule for a chain of two operations
pub bind-Spares :
    {A B : Type 0} (m : M A) (f : A → M B) (w : World)
    → Spares w (m w).0
    → ((a : A) → (m w).1 ≡ done a → Spares (m w).0 (f a (m w).0).0)
    → Spares w ((m >>= f) w).0
bind-Spares m f w first next = resume-Spares f w (m w).0 (m w).1 first next

recover-Spares :
    {A : Type 0} (cleanup : World → World) (w w' : World) (answer : Answer A)
    → Spares w w'
    → Spares w' (cleanup w')
    → Spares w (recover cleanup w' answer).0
recover-Spares cleanup w w' (done a) first next = first
recover-Spares cleanup w w' (raises e) first next = Spares-trans first next
recover-Spares cleanup w w' waits first next = first

pub then-Spares :
    {B : Type 0} (m : M (Unit {0})) (k : M B) (w : World)
    → Spares w (m w).0
    → ((v : World) → Spares w v → Spares v (k v).0)
    → Spares w ((m >> k) w).0
then-Spares m k w first next = bind-Spares m (λ _. k) w first (λ a e. next (m w).0 first)

-- The rule for a handler of exceptions
pub on_error-Spares :
    {A : Type 0} (cleanup : World → World) (m : M A) (w : World)
    → Spares w (m w).0
    → Spares (m w).0 (cleanup (m w).0)
    → Spares w (on_error cleanup m w).0
on_error-Spares cleanup m w first next = recover-Spares cleanup w (m w).0 (m w).1 first next

-- A change that leaves the bodies, the lookup and the pages alone
pub quiet-Spares :
    (w w' : World)
    → w'.gc_count ≡ w.gc_count
    → SameBodies w.heap w'.heap
    → w'.lookup ≡ w.lookup
    → w'.page ≡ w.page
    → w'.large_objects ≡ w.large_objects
    → Spares w w'
quiet-Spares w w' count bodies lookup page large = record {
  count = count;
  large = large;
  bodies = bodies;
  begins = λ p. ap (λ (f : ℕ → PageState). (f p).begin) page;
  forgets = λ a. inl (ap (λ (f : ℕ → ℕ). f a) lookup);
  finds = λ a r. ap (λ (f : ℕ → ℕ). f a) lookup;
  keeps = λ p e r m. subst (λ (f : ℕ → PageState). In e (f p).entries) (sym page) m;
  thins = λ weight p. omega (arith, ap (λ (f : ℕ → PageState). weigh weight (f p).entries) page);
}

pub change_handle-Spares :
    (n : ℕ) (f : Handle → Handle) (w : World)
    → ((h : Handle) → body (f h) ≡ body h)
    → Spares w (change_handle n f w)
change_handle-Spares n f w keep =
    quiet-Spares w (change_handle n f w) refl (on_handle-SameBodies f w.heap n keep) refl refl refl
