-- ===== src/Slots/Fresh.antt =====
-- The place that `GetNextWritable` gives, whatever the nodes: `next_free_slot` is above every slot
-- that is taken.
use Prim.Native.Nat.{bit_or}
use native.Mathlib.Nat.{pow-suc}
use gca.Base.{
  ℕ, zero, suc, ◌/◌, ◌^◌, ◌<◌, ◌≡◌, sym, ◌∙◌, ap, inl, inr, true, false, Option, none, some, [],
  ◌∷◌, ◌++◌, leb, ==_refl, length, length-append, set, Bool-cases, arith,
}
use gca.Base.Result.{Result, ok, throw, and_then}
use gca.Bits.Digits.{digit, digit-lt, digit-or, digit-pow, bit_and-pow, pow_pos}
use gca.Slots.{
  capacity, bit_width, next_free_slot, set_slot_is_free, get_slot_is_free, Nodes, flags_at,
  last_free_node, take_slot, get_next_writable,
}
use gca.Slots.Laws.{
  first_taken, Taken, take_next, FreeNode, last_free_node-FreeNode, flags_at-set_self,
  flags_at-append,
}

bit_width-above : (k w : ℕ) → bit_width k w < k → w < 2 ^ bit_width k w
unfolding bit_width
bit_width-above zero w h = absurd (omega (arith, h))
bit_width-above (suc k) w h = ground (arith, bit_width-above k w)

-- The place `slot` of node `i` was free and is taken now, and other places are as they were.
pub record Fresh (nodes nodes' : Nodes) (i slot : ℕ) : Type 0 where
  pub in_node : slot < capacity
  pub was_free : get_slot_is_free (flags_at nodes i) slot ≡ ok true
  pub is_taken : get_slot_is_free (flags_at nodes' i) slot ≡ ok false

abbrev pub Gives : Nodes → Result (Nodes × ℕ × ℕ) → Type 0
Gives nodes (ok (nodes', i, slot)) = Fresh nodes nodes' i slot
Gives nodes (throw e) = Unit

small_digit : (k w : ℕ) → w < 2 ^ k → digit k w ≡ 0
unfolding digit
small_digit zero w h = omega arith
small_digit (suc k) w h = small_digit k (w / 2) (omega (arith, pow-suc 2 k))

is_free_lem : (k w : ℕ) → k < 64 → digit k w ≡ 0 → get_slot_is_free w k ≡ ok true
unfolding get_slot_is_free
is_free_lem k w h e = ground (arith, bit_and-pow k w)

is_taken_lem : (k w : ℕ) → k < 64 → get_slot_is_free (bit_or w (2 ^ k)) k ≡ ok false
unfolding get_slot_is_free
is_taken_lem k w h =
    let e : digit k (bit_or w (2 ^ k)) ≡ 1 =
      digit-or k w (2 ^ k) ∙ rw (digit-pow k k, ==_refl k) (omega (arith, digit-lt k w)) in
    ground (arith, bit_and-pow k (bit_or w (2 ^ k)), pow_pos k, e)

taken-Gives :
    (nodes : Nodes) (i slot : ℕ)
    → i < length nodes
    → (slot < 64 → flags_at nodes i < 2 ^ slot)
    → Gives nodes (
        and_then
          (set_slot_is_free (flags_at nodes i) slot false)
          (λ n. ok (set nodes i n, i, slot)))
unfolding set_slot_is_free
taken-Gives nodes i slot h above = elim (Bool-cases (leb 64 slot)) [
  | inl full ↦ rw full tt
  | inr room ↦
      let small : slot < 64 = ground (arith, room) in
      let w = flags_at nodes i in
      rw room (record {
        in_node = small;
        was_free = is_free_lem slot w small (small_digit slot w (above small));
        is_taken =
            rw (flags_at-set_self nodes i (bit_or w (2 ^ slot)) h) (is_taken_lem slot w small);
      })
]

take_slot-Gives : (nodes : Nodes) (i : ℕ) → i < length nodes → Gives nodes (take_slot nodes i)
unfolding take_slot next_free_slot
take_slot-Gives nodes i h =
    taken-Gives nodes i (next_free_slot (flags_at nodes i)) h
      (bit_width-above 64 (flags_at nodes i))

Gives-new : (nodes : Nodes) (r : Result (Nodes × ℕ × ℕ)) → Gives (nodes ++ 0 ∷ []) r → Gives nodes r
Gives-new nodes (throw e) h = h
Gives-new nodes (ok (nodes', i, slot)) h = record {
  in_node = h.in_node;
  was_free = ap (λ w. get_slot_is_free w slot) (sym (flags_at-append nodes i)) ∙ h.was_free;
  is_taken = h.is_taken;
}

-- A place that `GetNextWritable` gives was free and is taken then.
pub get_next_writable-Gives : (nodes : Nodes) → Gives nodes (get_next_writable nodes)
unfolding get_next_writable
get_next_writable-Gives nodes = by_node (last_free_node nodes) (last_free_node-FreeNode nodes)
  where
    by_node :
        (o : Option ℕ)
        → FreeNode nodes o
        → Gives nodes (elim o [
          | some i ↦ take_slot nodes i
          | none ↦ take_slot (nodes ++ 0 ∷ []) (length nodes)
        ])
    by_node (some i) (h, free) = take_slot-Gives nodes i h
    by_node none h = Gives-new nodes _ (
        take_slot-Gives (nodes ++ 0 ∷ []) (length nodes)
          (omega (arith, length-append nodes (0 ∷ []))))

first_below : (k : ℕ) → first_taken k < 2 ^ k
first_below k = omega (arith, pow_pos k)

pub Taken-Fresh :
    {nodes nodes' : Nodes} {i slot : ℕ} → Taken nodes nodes' i slot → Fresh nodes nodes' i slot
Taken-Fresh {nodes} {nodes'} {i} {slot} t = record {
  in_node = t.in_node;
  was_free =
      ap (λ w. get_slot_is_free w slot) t.was
      ∙ is_free_lem slot (first_taken slot) t.in_node
          (small_digit slot (first_taken slot) (first_below slot));
  is_taken =
      ap (λ w. get_slot_is_free w slot) (t.now ∙ sym (take_next slot t.in_node))
      ∙ is_taken_lem slot (first_taken slot) t.in_node;
}
