-- ===== src/Collect/Count.antt =====
-- How many collections there can be: each that starts leaves `gcCount` one higher.
use gca.Base.{
  ℕ, ◌+◌, ◌*◌, ◌≤◌, ◌<◌, ◌≡◌, refl, ◌∙◌, true, false, List, [], ◌∷◌, length, leb, Option, none,
  some, inl, inr, Bool-cases, arith,
}
use gca.Roles.{Answer, done, raises, waits}
use gca.World.{World, M, resume, change_page, pure, wait, ◌>>◌}
use gca.World.Lands.{Lands, done-Lands, bind-Lands, release_after-Lands}
use gca.World.Spares.{IsPlaced, IsPlaced-Spares}
use gca.Mutex.{Mutex, acquire}
use gca.Allocation.{with_allocation_lock, release_page}
use gca.Destruction.{Env}
use gca.Destruction.Spares.{OthersSpare}
use gca.Collect.{
  max_collections, raise_count, lower_count, next_collection, collect_entries, collect_on_page,
}
use gca.Collect.Spares.{collect_on_page-Spares}
use gca.LifeCycle.{with_page_lock, on_page, for_each, visit_page, collect}

-- From eight collections on the loop at the start of a further one retries for ever, whatever else
-- other threads do.
next_collection-waits :
    (others : List (World → World)) (w : World)
    → OthersSpare others
    → max_collections ≤ w.gc_count
    → w.gc_count < 256
    → (next_collection others w).1 ≡ waits
unfolding next_collection
next_collection-waits [] w calm full byte =
    let test : leb max_collections w.gc_count ≡ true = ground (arith, full) in rw test refl
next_collection-waits (other ∷ others) w calm full byte =
    let test : leb max_collections w.gc_count ≡ true = ground (arith, full) in
    let back = lower_count (raise_count w) in
    let kept : (other back).gc_count ≡ w.gc_count = (calm.0 back).count ∙ (omega (arith, byte)) in
    rw test (
      next_collection-waits others (other back) calm.1 (omega (arith, kept, full))
        (omega (arith, kept, byte)))

waits-resume :
    {A B : Type 0} (f : A → M B) (w : World) (answer : Answer A) (b : B)
    → answer ≡ waits
    → (resume f w answer).1 ≡ done b
    → ⊥
waits-resume f w (done a) b e h = cc
waits-resume f w (raises x) b e h = cc
waits-resume f w waits b e h = cc

-- What a collection needs and leaves where it returns
record Counts (w v : World) : Type 0 where
  room : w.gc_count < max_collections
  one_more : v.gc_count ≡ w.gc_count + 1
  placed : IsPlaced v

module _ (env : Env) (calm : OthersSpare env.others) where
  collect_on_page-Counts :
      (p : ℕ) (w : World)
      → IsPlaced w
      → w.gc_count < 256
      → (collect_on_page env p w).1 ≡ done tt
      → Counts w (collect_on_page env p w).0
  unfolding collect_on_page
  collect_on_page-Counts p w placed byte h = elim (Bool-cases (leb max_collections w.gc_count)) [
    | inl full ↦ absurd (
        waits-resume (λ id v. collect_entries env id p wait (2 * length (v.page p).entries + 1) 0 v)
          (next_collection env.others w).0 (next_collection env.others w).1 tt
          (next_collection-waits env.others w calm (ground (arith, full)) byte) h)
    | inr few ↦
        let room : w.gc_count < max_collections = ground (arith, few) in
        let s = collect_on_page-Spares env p w calm placed room in
        record { room = room; one_more = s.count; placed = IsPlaced-Spares s placed }
  ]

  visit-Counts :
      (p : ℕ) (w : World)
      → IsPlaced w
      → w.gc_count < 256
      → Lands (λ v _. Counts w v) ((collect_on_page env p >> pure tt) w)
  visit-Counts p w placed byte =
      bind-Lands (λ v _. Counts w v) (λ v _. Counts w v) (collect_on_page env p) (λ _. pure tt) w
        (λ u h. collect_on_page-Counts p w placed byte h)
        (λ u v c. done-Lands (λ v _. Counts w v) v tt c)

  with_page_lock-Counts :
      (p : ℕ) (w : World) (o : Option Mutex)
      → IsPlaced w
      → w.gc_count < 256
      → Lands (λ v _. Counts w v) (with_page_lock p (collect_on_page env p >> pure tt) w o)
  with_page_lock-Counts p w none placed byte = λ u h. cc
  with_page_lock-Counts p w (some l) placed byte =
      let m = collect_on_page env p >> pure tt in
      let locked = change_page p (with_allocation_lock l) w in
      release_after-Lands (λ v _. Counts w v) (release_page p) (m locked).0 (m locked).1
        (λ u c. record { room = c.room; one_more = c.one_more; placed = c.placed })
        (λ u h.
          let c = visit-Counts p locked placed byte u h in
          record { room = c.room; one_more = c.one_more; placed = c.placed })

  visit_page-Counts :
      (p : ℕ) (w : World)
      → IsPlaced w
      → w.gc_count < 256
      → Lands (λ v _. Counts w v) (visit_page env false p w)
  unfolding visit_page on_page
  visit_page-Counts p w placed byte =
      with_page_lock-Counts p w (acquire [] (w.page p).allocation_lock) placed byte

  abbrev Within : (visits : ℕ) → World → World → Type 0
  Within visits w v = (w.gc_count + visits ≤ max_collections) × (v.gc_count ≡ w.gc_count + visits)

  for_each-Within :
      (ps : List ℕ) (w : World)
      → IsPlaced w
      → w.gc_count ≤ max_collections
      → Lands (λ v _. Within (length ps) w v) (for_each (visit_page env false) ps w)
  unfolding for_each
  for_each-Within [] w placed few =
      done-Lands (λ v _. Within 0 w v) w tt (omega (arith, few), omega arith)
  for_each-Within (p ∷ ps) w placed few =
      bind-Lands (λ v _. Counts w v) (λ v _. Within (length (p ∷ ps)) w v) (visit_page env false p)
        (λ _. for_each (visit_page env false) ps) w
        (visit_page-Counts p w placed (omega (arith, few)))
        λ u v c x h.
          let few_v : v.gc_count ≤ max_collections = omega (arith, c.room, c.one_more) in
          let (most, count) = for_each-Within ps v c.placed few_v x h in
          (omega (arith, most, c.one_more), omega (arith, count, c.one_more))

  -- A call of `Collect` without defragmenting, where at most eight collections were started before,
  -- the handles lie where the lookup has them, and other threads spare what has roots while it
  -- yields, returns only where the collections of all pages and those that were started before are
  -- eight at most; and then it leaves one more counted for each page.
  pub collect-gc_count :
      (w : World)
      → IsPlaced w
      → w.gc_count ≤ max_collections
      → (collect env false w).1 ≡ done tt
      → (w.gc_count + length w.pages ≤ max_collections)
        × ((collect env false w).0.gc_count ≡ w.gc_count + length w.pages)
  unfolding collect
  collect-gc_count w placed few h = for_each-Within w.pages w placed few tt h
