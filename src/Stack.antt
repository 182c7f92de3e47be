-- ===== src/Stack.antt =====
-- b_stack.c: a growable array of pointers with a count, used as stack, queue and sequence.
-- A slot is `none` where the array holds NULL. What realloc() and calloc() answer is an argument.
pub mod Refine
pub mod Order
use archive_tar_builder.Prelude.{
  ℕ, zero, suc, ◌-◌, ◌/◌, Bool, true, false, Option, none, some, List, [], ◌∷◌, ltb, leb, ◌==◌,
  if◌then◌else◌, get_or, set, take, replicate, add64, sub64, mul64,
}

abbrev pub default_growth_factor : ℕ
default_growth_factor = 128

-- `destructor` says whether one is set.
pub record Stack {ℓ} (A : Type ℓ) : Type ℓ where
  pub size : ℕ
  pub count : ℕ
  pub growth_factor : ℕ
  pub items : List (Option A)
  pub destructor : Bool

module _ {ℓ} {A : Type ℓ} where
  -- `granted` says of both allocations together whether they succeed.
  unfoldable pub new : Bool → ℕ → Option (Stack A)
  new granted grow_by =
      let growth : ℕ = if ltb 0 grow_by then grow_by else default_growth_factor in
      if granted
      then some (record {
        size = growth;
        count = 0;
        growth_factor = growth;
        items = replicate growth none;
        destructor = false;
      })
      else none

  unfoldable pub set_destructor : Stack A → Bool → Stack A
  set_destructor s destructor = record s { destructor = destructor }

  -- What realloc() leaves in an array of `n` slots. Fresh slots are indeterminate, and never read.
  unfoldable pub fit : ℕ → List (Option A) → List (Option A)
  fit zero xs = []
  fit (suc n) [] = none ∷ fit n []
  fit (suc n) (x ∷ xs) = x ∷ fit n xs

  -- False is the NULL of the source; the stack is then unchanged.
  unfoldable pub resize : Bool → Stack A → ℕ → Bool × Stack A
  unfolding fit
  resize granted s newsize =
      if newsize == 0
      then (true, s)
      else if granted
      then (true, record s { size = newsize; items = fit newsize s.items })
      else (false, s)

  -- The result is the item, or NULL.
  unfoldable pub push : Bool → Stack A → A → Option A × Stack A
  unfolding resize
  push granted s item =
      let (grown, s') =
        if s.count == s.size then resize granted s (add64 s.size s.growth_factor) else (true, s) in
      if grown
      then (
        some item,
        record s' { items = set s'.items s'.count (some item); count = add64 s'.count 1 },
      )
      else (none, s')

  -- The end of `pop` and `shift`: a stack with two spare runs of slots gives one back.
  unfoldable pub shrink : Bool → Stack A → ℕ → Option A → Option A × Stack A
  unfolding resize
  shrink granted s index item =
      if index == sub64 s.size (mul64 s.growth_factor 2)
      then (let (done, s') = resize granted s (sub64 s.size s.growth_factor) in
          if done then (item, s') else (none, s'))
      else (item, s)

  unfoldable pub pop : Bool → Stack A → Option A × Stack A
  unfolding shrink
  pop granted s =
      if s.count == 0
      then (none, s)
      else (let index = s.count - 1 in
          shrink granted (record s { items = set s.items index none; count = index }) index
            (get_or s.items index none))

  -- `for (i = i; i < i + n; i++) items[i-1] = items[i];`
  unfoldable pub move_down : ℕ → ℕ → List (Option A) → List (Option A)
  move_down zero i items = items
  move_down (suc n) i items = move_down n (suc i) (set items (i - 1) (get_or items i none))

  unfoldable pub shift : Bool → Stack A → Option A × Stack A
  unfolding shrink move_down
  shift granted s =
      if s.count == 0
      then (none, s)
      else (let last = s.count - 1 in
          let moved = set (move_down last 1 s.items) last none in
          shrink granted (record s { items = moved; count = last }) last (get_or s.items 0 none))

  unfoldable pub top : Stack A → Option A
  top s = if s.count == 0 then none else get_or s.items (s.count - 1) none

  unfoldable pub item_at : Stack A → ℕ → Option A
  item_at s index = if leb s.count index then none else get_or s.items index none

  -- `for (i = i; i < i + n; i++)` with the swap of `i` and its opposite.
  unfoldable pub swap_ends : ℕ → ℕ → ℕ → List (Option A) → List (Option A)
  swap_ends zero i count items = items
  swap_ends (suc n) i count items =
      let opposite = count - 1 - i in
      let tmp = get_or items i none in
      swap_ends n (suc i) count (set (set items i (get_or items opposite none)) opposite tmp)

  unfoldable pub reverse : Stack A → Stack A
  unfolding swap_ends
  reverse s = record s { items = swap_ends (s.count / 2) 0 s.count s.items }

  -- The slots that the destructor is called on, in order.
  unfoldable pub destroy : Stack A → List (Option A)
  destroy s = if s.destructor then take s.count s.items else []
