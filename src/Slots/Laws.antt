-- ===== src/Slots/Laws.antt =====
-- The container as the collector uses it: slots are taken in order and never given back.
use Prim.Native.Nat.{bit_or}
use native.Mathlib.Decide.{dec_lt}
use gca.Base.{
  ℕ, zero, suc, ◌-◌, ◌^◌, ◌≤◌, ◌<◌, ◌≡◌, ◌≢◌, refl, sym, ◌∙◌, inl, inr, Bool, true, false, not,
  Option, none, some, [], ◌∷◌, ◌++◌, ◌==◌, ==_iff, if◌then◌else◌, length, set, length-append, All,
  All-append, Bool-cases, arith,
}
use gca.Base.Result.{Result, ok, throw, out_of_range}
use gca.Bits.Masks.{every, every_sound}
use gca.Slots.{
  capacity, all_taken, has_free_slot, next_free_slot, get_slot_is_free, Nodes, flags_at,
  last_free_node, take_slot, get_next_writable, remove,
}

-- The first `k` slots are taken, and no other.
abbrev pub first_taken : ℕ → ℕ
first_taken k = 2 ^ k - 1

abbrev pub IsFilled : ℕ → Type 0
IsFilled taken = (k : ℕ) × (k ≤ 64) × (taken ≡ first_taken k)

pub next_free_slot-first : (k : ℕ) → k < 65 → next_free_slot (first_taken k) ≡ k
unfolding next_free_slot every
next_free_slot-first k h =
    (==_iff _ _).0 (every_sound 65 (λ k. next_free_slot (first_taken k) == k) k refl h)

pub take_next : (k : ℕ) → k < 64 → bit_or (first_taken k) (2 ^ k) ≡ first_taken (suc k)
unfolding every
take_next k h =
    (==_iff _ _).0
      (every_sound 64 (λ k. bit_or (first_taken k) (2 ^ k) == first_taken (suc k)) k refl h)

free_below : (k : ℕ) → k < 64 → (first_taken k == all_taken) ≡ false
unfolding every
free_below k h = not_true _ (every_sound 64 (λ k. not (first_taken k == all_taken)) k refl h)
  where
    not_true : (b : Bool) → not b ≡ true → b ≡ false
    not_true true e = cc
    not_true false e = refl

IsFilled-free :
    (taken : ℕ)
    → IsFilled taken
    → has_free_slot taken ≡ true
    → (k : ℕ) × (k < 64) × (taken ≡ first_taken k)
IsFilled-free taken (k, h, e) free = (k, below k h (rw e at free), e)
  where
    below : (k : ℕ) → k ≤ 64 → not (first_taken k == all_taken) ≡ true → k < 64
    below k h f = elim (dec_lt k 64) [ yes p ↦ p | no p ↦ cc (rw (equal k (omega arith)) at f) ]
      where
        equal : (k : ℕ) → k ≡ 64 → (first_taken k == all_taken) ≡ true
        equal k e = rw e refl

take_slot-filled :
    (nodes : Nodes) (i k : ℕ)
    → k < 64
    → flags_at nodes i ≡ first_taken k
    → take_slot nodes i ≡ ok (set nodes i (first_taken (suc k)), i, k)
unfolding take_slot
take_slot-filled nodes i k h e =
    rw e (rw (next_free_slot-first k (omega arith)) (ground (arith, take_next k h)))

abbrev pub FreeNode : Nodes → Option ℕ → Type 0
FreeNode nodes none = Unit
FreeNode nodes (some i) = (i < length nodes) × (has_free_slot (flags_at nodes i) ≡ true)

-- The node that the search from the last one back finds has a free slot.
pub last_free_node-FreeNode : (nodes : Nodes) → FreeNode nodes (last_free_node nodes)
unfolding last_free_node
last_free_node-FreeNode [] = tt
last_free_node-FreeNode (n ∷ ns) = by_rest (last_free_node ns) (last_free_node-FreeNode ns)
  where
    by_rest :
        (o : Option ℕ)
        → FreeNode ns o
        → FreeNode
            (n ∷ ns)
            (elim o [ some j ↦ some (suc j) | none ↦ if has_free_slot n then some 0 else none ])
    by_rest (some j) (h, f) = (omega arith, f)
    by_rest none h = elim (Bool-cases (has_free_slot n)) [
      | inl free ↦ rw free (omega arith, free)
      | inr full ↦ rw full tt
    ]

All-flags_at :
    (nodes : Nodes) (i : ℕ) → All IsFilled nodes → i < length nodes → IsFilled (flags_at nodes i)
All-flags_at [] i a h = absurd (omega arith)
All-flags_at (n ∷ ns) zero a h = a.0
All-flags_at (n ∷ ns) (suc i) a h = All-flags_at ns i a.1 (omega arith)

All-set :
    (nodes : Nodes) (i taken : ℕ)
    → All IsFilled nodes
    → IsFilled taken
    → All IsFilled (set nodes i taken)
All-set [] i taken a f = tt
All-set (n ∷ ns) zero taken a f = (f, a.1)
All-set (n ∷ ns) (suc i) taken a f = (a.0, All-set ns i taken a.1 f)

pub flags_at-set_self :
    (nodes : Nodes) (i taken : ℕ) → i < length nodes → flags_at (set nodes i taken) i ≡ taken
flags_at-set_self [] i taken h = absurd (omega arith)
flags_at-set_self (n ∷ ns) zero taken h = refl
flags_at-set_self (n ∷ ns) (suc i) taken h = flags_at-set_self ns i taken (omega arith)

pub flags_at-set_ne :
    (nodes : Nodes) (i j taken : ℕ) → i ≢ j → flags_at (set nodes i taken) j ≡ flags_at nodes j
flags_at-set_ne [] i j taken h = refl
flags_at-set_ne (n ∷ ns) zero zero taken h = absurd (h refl)
flags_at-set_ne (n ∷ ns) zero (suc j) taken h = refl
flags_at-set_ne (n ∷ ns) (suc i) zero taken h = refl
flags_at-set_ne (n ∷ ns) (suc i) (suc j) taken h = flags_at-set_ne ns i j taken (omega arith)

pub flags_at-last :
    (nodes : Nodes) (taken : ℕ) → flags_at (nodes ++ taken ∷ []) (length nodes) ≡ taken
flags_at-last [] taken = refl
flags_at-last (n ∷ ns) taken = flags_at-last ns taken

last_free_node-last :
    (nodes : Nodes) (taken : ℕ)
    → has_free_slot taken ≡ true
    → last_free_node (nodes ++ taken ∷ []) ≡ some (length nodes)
unfolding last_free_node
last_free_node-last [] taken free = rw free refl
last_free_node-last (n ∷ ns) taken free = rw (last_free_node-last ns taken free) refl

pub flags_at-append : (nodes : Nodes) (j : ℕ) → flags_at (nodes ++ 0 ∷ []) j ≡ flags_at nodes j
flags_at-append [] zero = refl
flags_at-append [] (suc j) = refl
flags_at-append (n ∷ ns) zero = refl
flags_at-append (n ∷ ns) (suc j) = flags_at-append ns j

-- The place `slot` of node `i` was free and is taken now, the nodes are filled from below, and
-- every other place is as before.
pub record Taken (nodes nodes' : Nodes) (i slot : ℕ) : Type 0 where
  pub in_node : slot < capacity
  pub was : flags_at nodes i ≡ first_taken slot
  pub now : flags_at nodes' i ≡ first_taken (suc slot)
  pub filled : All IsFilled nodes'
  pub others : (j : ℕ) → i ≢ j → flags_at nodes' j ≡ flags_at nodes j

abbrev pub Returns : Nodes → Result (Nodes × ℕ × ℕ) → Type 0
Returns nodes (ok (nodes', i, slot)) = Taken nodes nodes' i slot
Returns nodes (throw e) = ⊥

take_slot-Returns :
    (nodes : Nodes) (i k : ℕ)
    → All IsFilled nodes
    → i < length nodes
    → k < 64
    → flags_at nodes i ≡ first_taken k
    → Returns nodes (take_slot nodes i)
take_slot-Returns nodes i k a h lt e = rw (take_slot-filled nodes i k lt e) (record {
  in_node = lt;
  was = e;
  now = flags_at-set_self nodes i (first_taken (suc k)) h;
  filled = All-set nodes i (first_taken (suc k)) a (suc k, lt, refl);
  others = λ j ne. flags_at-set_ne nodes i j (first_taken (suc k)) ne;
})

Returns-new :
    (nodes : Nodes) (r : Result (Nodes × ℕ × ℕ)) → Returns (nodes ++ 0 ∷ []) r → Returns nodes r
Returns-new nodes (throw e) h = h
Returns-new nodes (ok (nodes', i, slot)) h = record {
  in_node = h.in_node;
  was = sym (flags_at-append nodes i) ∙ h.was;
  now = h.now;
  filled = h.filled;
  others = λ j ne. h.others j ne ∙ flags_at-append nodes j;
}

-- Where every node is filled from below, as it is in a container from which nothing is taken out,
-- `GetNextWritable` does not throw: it gives a place that was free, takes it and no other, and
-- leaves every node filled from below.
pub get_next_writable-Taken :
    (nodes : Nodes) → All IsFilled nodes → Returns nodes (get_next_writable nodes)
unfolding get_next_writable
get_next_writable-Taken nodes a = by_node (last_free_node nodes) (last_free_node-FreeNode nodes)
  where
    by_node :
        (o : Option ℕ)
        → FreeNode nodes o
        → Returns nodes (elim o [
          | some i ↦ take_slot nodes i
          | none ↦ take_slot (nodes ++ 0 ∷ []) (length nodes)
        ])
    by_node (some i) (h, free) =
        let (k, lt, e) = IsFilled-free (flags_at nodes i) (All-flags_at nodes i a h) free in
        take_slot-Returns nodes i k a h lt e
    by_node none h = Returns-new nodes _ (
        take_slot-Returns (nodes ++ 0 ∷ []) (length nodes) 0
          (All-append IsFilled nodes (0 ∷ []) a ((0, omega arith, refl), tt))
          (omega (arith, length-append nodes (0 ∷ []))) (omega arith) (flags_at-last nodes 0))

-- `Remove` of a value that is there, so in a taken slot, changes nothing and destroys nothing.
pub remove-taken :
    (nodes : Nodes) (i slot : ℕ)
    → slot < capacity
    → get_slot_is_free (flags_at nodes i) slot ≡ ok false
    → remove nodes i slot ≡ ok (nodes, none)
unfolding remove
remove-taken nodes i slot h e = rw e refl

full_width : (taken : ℕ) → 2 ^ 63 ≤ taken → next_free_slot taken ≡ 64
unfolding next_free_slot
full_width taken h = ground arith

-- A node whose last slot is taken while another is free breaks the container: if it is the last
-- node, the next `GetNextWritable` throws `out_of_range`.
pub get_next_writable-out_of_range :
    (nodes : Nodes) (taken : ℕ)
    → 2 ^ 63 ≤ taken
    → taken < all_taken
    → get_next_writable (nodes ++ taken ∷ []) ≡ throw out_of_range
unfolding get_next_writable
get_next_writable-out_of_range nodes taken h k =
    let free : has_free_slot taken ≡ true = ground arith in
    rw (last_free_node-last nodes taken free, get_next_writable)
      (rw (flags_at-last nodes taken, full_width taken h) refl)
