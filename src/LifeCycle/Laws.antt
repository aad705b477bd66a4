-- ===== src/LifeCycle/Laws.antt =====
-- When there is a collector, by the calls of `Init` and `Destroy` that were made.
use gca.Base.{
  ℕ, zero, suc, ◌+◌, ◌-◌, ◌^◌, ◌<◌, ◌≡◌, refl, ap, sym, ◌∙◌, true, false, Option, none, some, ◌==◌,
  arith,
}
use gca.Page.{u64, sub64}
use gca.Roles.{Answer, done, raises, waits}
use gca.World.{empty_world, World}
use gca.Destruction.{Env}
use gca.LifeCycle.{destroy_gc, Globals, init, after_destructor, destroy_impl, destroy}

-- With `calls` calls of `Init` that have no `Destroy` yet: there is a collector exactly where there
-- are such calls, and the counter has their number.
pub data IsBalanced : (calls : ℕ) → Globals → Type 0 where
  unused :
      {calls : ℕ} {g : Globals} → calls ≡ 0 → g.init_count ≡ 0 → g.impl ≡ none → IsBalanced calls g
  in_use :
      {calls : ℕ} {g : Globals}
      → 0 < calls
      → calls < 2 ^ 64
      → g.init_count ≡ calls
      → (w : World) → g.impl ≡ some w
      → IsBalanced calls g

-- Calls of `Init`, and of `Destroy` where each has its `Init` and the destructor returns; between
-- them the collector's state changes in any way. The calls are counted apart from the globals.
pub data Reachable (env : Env) : (calls : ℕ) → Globals → Type 0 where
  start : {g : Globals} → g.init_count ≡ 0 → g.impl ≡ none → Reachable env 0 g
  inits :
      {calls : ℕ} {g : Globals}
      → calls + 1 < 2 ^ 64
      → Reachable env calls g
      → Reachable env (calls + 1) (init g).0
  destroys :
      {calls : ℕ} {g : Globals}
      → (destroy env g).1 ≡ done tt
      → Reachable env (calls + 1) g
      → Reachable env calls (destroy env g).0
  works :
      {calls : ℕ} {g : Globals} (w v : World)
      → g.impl ≡ some w
      → Reachable env calls g
      → Reachable env calls (record g { impl = some v })

init-first :
    (g : Globals)
    → g.init_count ≡ 0
    → init g ≡ (record g { init_count = 1; impl = some empty_world }, true)
unfolding init
init-first g e = rw (e, init) refl

init-later :
    (g : Globals)
    → 0 < g.init_count
    → g.init_count + 1 < 2 ^ 64
    → init g ≡ (record g { init_count = g.init_count + 1 }, false)
unfolding init
init-later g some_count room =
    let test : (g.init_count == 0) ≡ false = ground (arith, some_count) in
    let small : u64 (g.init_count + 1) ≡ g.init_count + 1 = omega (arith, room) in
    rw (test, small) refl

destroy-later :
    (env : Env) (g : Globals)
    → 1 < g.init_count
    → g.init_count < 2 ^ 64
    → destroy env g ≡ (record g { init_count = g.init_count - 1 }, done tt)
unfolding destroy
destroy-later env g some_count bound =
    let test : (sub64 g.init_count 1 == 0) ≡ false = ground (arith, some_count, bound) in
    let small : sub64 g.init_count 1 ≡ g.init_count - 1 = omega (arith, some_count, bound) in
    rw (test, small) refl

destroy-last :
    (env : Env) (g : Globals)
    → g.init_count ≡ 1
    → destroy env g ≡ destroy_impl env (record g { init_count = 0 }) g.impl
unfolding destroy
destroy-last env g e = let small : sub64 g.init_count 1 ≡ 0 = omega (arith, e) in rw small refl

init-IsBalanced :
    (calls : ℕ) (g : Globals)
    → calls + 1 < 2 ^ 64
    → IsBalanced calls g
    → IsBalanced (calls + 1) (init g).0
init-IsBalanced calls g room (unused no_calls e gone) =
    rw (init-first g e)
      (in_use (omega arith) (omega arith) (omega (arith, no_calls)) empty_world refl)
init-IsBalanced calls g room (in_use some_calls bound counts w e) =
    rw (init-later g (omega (arith, some_calls, counts)) (omega (arith, room, counts)))
      (in_use (omega arith) (omega (arith, room)) (omega (arith, counts)) w e)

after_destructor-IsBalanced :
    (g : Globals) (w : World) (answer : Answer (Unit {0}))
    → g.init_count ≡ 0
    → (after_destructor g w answer).1 ≡ done tt
    → IsBalanced 0 (after_destructor g w answer).0
after_destructor-IsBalanced g w (done u) e h = unused refl e refl
after_destructor-IsBalanced g w (raises x) e h = cc
after_destructor-IsBalanced g w waits e h = cc

destroy_impl-IsBalanced :
    (env : Env) (g : Globals) (impl : Option World)
    → g.init_count ≡ 0
    → g.impl ≡ impl
    → (destroy_impl env g impl).1 ≡ done tt
    → IsBalanced 0 (destroy_impl env g impl).0
destroy_impl-IsBalanced env g none e same h = unused refl e same
destroy_impl-IsBalanced env g (some w) e same h =
    after_destructor-IsBalanced g (destroy_gc env w).0 (destroy_gc env w).1 e h

destroy-IsBalanced :
    (env : Env) (calls : ℕ) (g : Globals)
    → (destroy env g).1 ≡ done tt
    → IsBalanced (calls + 1) g
    → IsBalanced calls (destroy env g).0
destroy-IsBalanced env calls g returns (unused no_calls e gone) = absurd (omega (arith, no_calls))
destroy-IsBalanced env zero g returns (in_use some_calls bound counts w e) =
    let last = destroy-last env g counts in
    rw last (
      destroy_impl-IsBalanced env (record g { init_count = 0 }) g.impl refl refl
        (ap (λ r. r.1) (sym last) ∙ returns))
destroy-IsBalanced env (suc calls) g returns (in_use some_calls bound counts w e) =
    rw (destroy-later env g (omega (arith, counts)) (omega (arith, counts, bound)))
      (in_use (omega arith) (omega (arith, bound)) (omega (arith, counts)) w e)

works-IsBalanced :
    {calls : ℕ} {g : Globals} (w v : World)
    → g.impl ≡ some w
    → IsBalanced calls g
    → IsBalanced calls (record g { impl = some v })
works-IsBalanced w v e (unused no_calls zero_count gone) = cc (gone, e)
works-IsBalanced w v e (in_use some_calls bound counts x f) = in_use some_calls bound counts v refl

-- Whatever calls of `Init` and `Destroy` were made, and whatever the collector did between them, the
-- counter has the number of calls of `Init` that have no `Destroy` yet, and there is a collector
-- exactly where there are such calls; as long as there are fewer than 2 ^ 64 of them, no `Destroy`
-- is called without an `Init`, and every destructor returns.
pub Reachable-IsBalanced :
    (env : Env) {calls : ℕ} {g : Globals} → Reachable env calls g → IsBalanced calls g
Reachable-IsBalanced env (start e gone) = unused refl e gone
Reachable-IsBalanced env (inits {calls} {g} room r) =
    init-IsBalanced calls g room (Reachable-IsBalanced env r)
Reachable-IsBalanced env (destroys {calls} {g} returns r) =
    destroy-IsBalanced env calls g returns (Reachable-IsBalanced env r)
Reachable-IsBalanced env (works w v e r) = works-IsBalanced w v e (Reachable-IsBalanced env r)

-- A pair of calls while the collector is in use changes nothing.
pub destroy-init :
    (env : Env) (g : Globals)
    → 0 < g.init_count
    → g.init_count + 1 < 2 ^ 64
    → destroy env (init g).0 ≡ (g, done tt)
destroy-init env g some_count room =
    let back : g.init_count + 1 - 1 ≡ g.init_count = omega arith in
    let with_count : ℕ → Globals × Answer (Unit {0}) =
      λ c. (record g { init_count = c }, done tt) in
    let up = init-later g some_count room in
    ap (λ r. destroy env r.0) up
    ∙ destroy-later env (record g { init_count = g.init_count + 1 }) (omega (arith, some_count))
        (omega (arith, room))
    ∙ ap with_count back
