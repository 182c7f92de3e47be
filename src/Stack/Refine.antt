-- ===== src/Stack/Refine.antt =====
-- b_stack.c against a list: what a stack holds, and what each operation does to it.
use archive_tar_builder.Prelude.{
  ℕ, zero, suc, ◌+◌, ◌-◌, ◌*◌, ◌^◌, ◌<◌, ◌≡◌, refl, ap, ◌∙◌, true, false, Option, none, some, List,
  [], ◌∷◌, ◌++◌, map, arith, length, get_or, set, length-append, Bool-cases, ◌==◌, ==_iff, add64,
  sub64, mul64, inl, inr,
}
use archive_tar_builder.Stack.{Stack, fit, resize, push, shrink, pop, top}

-- An array of pointers is smaller than the address space.
abbrev pub max_slots : ℕ
max_slots = 2 ^ 61

-- The stack `s` holds the items `xs`, the top one last: they fill its first slots, and there are
-- at most `size` of them.
pub record Holds {ℓ} {A : Type ℓ} (s : Stack A) (xs : List A) : Type ℓ where
  pub rest : List (Option A)
  pub layout : s.items ≡ map some xs ++ rest
  pub count_eq : s.count ≡ length xs
  pub size_eq : s.size ≡ length xs + length rest
  pub growth_pos : 0 < s.growth_factor
  pub growth_small : s.growth_factor < max_slots
  pub size_small : s.size < max_slots

module _ {ℓ} {A : Type ℓ} where
  pub length-fit : (n : ℕ) (xs : List (Option A)) → length (fit n xs) ≡ n
  unfolding fit
  length-fit zero xs = refl
  length-fit (suc n) [] = ap suc (length-fit n [])
  length-fit (suc n) (x ∷ xs) = ap suc (length-fit n xs)

  -- A resized array keeps the items that it has room for.
  pub fit-append :
      (xs : List A) (k : ℕ) (rest : List (Option A))
      → fit (length xs + k) (map some xs ++ rest) ≡ map some xs ++ fit k rest
  unfolding fit
  fit-append [] k rest = ap (λ n. fit n rest) (omega arith)
  fit-append (x ∷ xs) k rest =
      ap (λ n. fit n (some x ∷ (map some xs ++ rest))) {x = suc (length xs) + k}
        {y = suc (length xs + k)} (omega arith)
      ∙ ap (λ t. some x ∷ t) (fit-append xs k rest)

  -- Writing just past the items appends one.
  pub write-end :
      (xs : List A) (r : Option A) (rest : List (Option A)) (x : A)
      → set (map some xs ++ r ∷ rest) (length xs) (some x) ≡ map some (xs ++ x ∷ []) ++ rest
  write-end [] r rest x = refl
  write-end (y ∷ xs) r rest x = ap (λ t. some y ∷ t) (write-end xs r rest x)

  -- Clearing the last item's slot.
  pub clear-end :
      (xs : List A) (x : A) (rest : List (Option A))
      → set (map some (xs ++ x ∷ []) ++ rest) (length xs) none ≡ map some xs ++ none ∷ rest
  clear-end [] x rest = refl
  clear-end (y ∷ xs) x rest = ap (λ t. some y ∷ t) (clear-end xs x rest)

  pub read-end :
      (xs : List A) (x : A) (rest : List (Option A))
      → get_or (map some (xs ++ x ∷ []) ++ rest) (length xs) none ≡ some x
  read-end [] x rest = refl
  read-end (y ∷ xs) x rest = read-end xs x rest

  -- The end of `push`, on a stack with room.
  push-room :
      (s : Stack A) (xs : List A) (r : Option A) (rest : List (Option A)) (x : A)
      → s.items ≡ map some xs ++ r ∷ rest
      → s.count ≡ length xs
      → s.size ≡ length xs + length (r ∷ rest)
      → 0 < s.growth_factor
      → s.growth_factor < max_slots
      → s.size < max_slots
      → Holds
          (record s { items = set s.items s.count (some x); count = add64 s.count 1 })
          (xs ++ x ∷ [])
  push-room s xs r rest x layout count_eq size_eq pos gsmall small = record {
    rest = rest;
    layout = rw (layout, count_eq) (write-end xs r rest x);
    count_eq = omega (arith, length-append xs (x ∷ []));
    size_eq = omega (arith, length-append xs (x ∷ []));
    growth_pos = pos;
    growth_small = gsmall;
    size_small = small;
  }

  push-split :
      (s : Stack A) (xs : List A) (rest : List (Option A)) (g : ℕ) (x : A)
      → s.items ≡ map some xs ++ rest
      → s.count ≡ length xs
      → s.size ≡ length xs + length rest
      → s.growth_factor ≡ suc g
      → s.growth_factor < max_slots
      → s.size + s.growth_factor < max_slots
      → ((push true s x).0 ≡ some x) × Holds (push true s x).1 (xs ++ x ∷ [])
  unfolding push resize fit
  push-split s xs [] g x layout count_eq size_eq g_eq gsmall small =
      let full : (s.count == s.size) ≡ true = ground arith in
      let grown : add64 s.size s.growth_factor ≡ length xs + suc g = omega arith in
      let nonzero : ((length xs + suc g) == 0) ≡ false = ground arith in
      rw (full, grown, nonzero)
        (
          refl,
          push-room (record s { size = length xs + suc g; items = fit (length xs + suc g) s.items })
              xs none (fit g []) x (rw layout (fit-append xs (suc g) [])) count_eq
              (omega (arith, length-fit g [])) (omega arith) gsmall (omega arith),
        )
  push-split s xs (r ∷ rest) g x layout count_eq size_eq g_eq gsmall small =
      let room : (s.count == s.size) ≡ false = ground arith in
      rw room
        (refl, push-room s xs r rest x layout count_eq size_eq (omega arith) gsmall (omega arith))

  -- A push that is granted its memory, on a stack that can grow without wrapping, returns the item and
  -- puts it on top of what the stack holds.
  pub push-Holds :
      {s : Stack A} {xs : List A} (x : A)
      → Holds s xs
      → s.size + s.growth_factor < max_slots
      → ((push true s x).0 ≡ some x) × Holds (push true s x).1 (xs ++ x ∷ [])
  push-Holds {s} {xs} x h fits =
      push-split s xs h.rest (s.growth_factor - 1) x h.layout h.count_eq h.size_eq (omega arith)
        h.growth_small fits

  -- A push on a full stack that is refused its memory returns NULL and leaves the stack as it was.
  pub push-refused :
      (s : Stack A) (x : A)
      → s.count ≡ s.size
      → 0 < s.growth_factor
      → s.size + s.growth_factor < max_slots
      → push false s x ≡ (none, s)
  unfolding push resize
  push-refused s x full pos small = ground arith

  size-two :
      {s : Stack A} {xs : List A}
      → Holds s xs
      → (length xs == sub64 s.size (mul64 s.growth_factor 2)) ≡ true
      → s.size ≡ length xs + 2 * s.growth_factor
  size-two {s} {xs} h e =
      let eq : length xs ≡ sub64 s.size (mul64 s.growth_factor 2) = (==_iff _ _).0 e in
      omega (arith, h.size_eq)

  -- The end of `pop` and `shift`, on the items that are left.
  pub shrink-Holds :
      {s : Stack A} {xs : List A} (item : Option A)
      → Holds s xs
      → ((shrink true s (length xs) item).0 ≡ item) × Holds (shrink true s (length xs) item).1 xs
  unfolding shrink resize
  shrink-Holds {s} {xs} item h =
      elim (Bool-cases (length xs == sub64 s.size (mul64 s.growth_factor 2))) [
        | inl e ↦
            let two : s.size ≡ length xs + 2 * s.growth_factor = size-two h e in
            let less : sub64 s.size s.growth_factor ≡ length xs + s.growth_factor = omega arith in
            let nonzero : ((length xs + s.growth_factor) == 0) ≡ false = ground arith in
            rw (e, less, nonzero)
              (
                refl,
                record {
                  rest = fit s.growth_factor h.rest;
                  layout = rw (h.layout) (fit-append xs s.growth_factor h.rest);
                  count_eq = h.count_eq;
                  size_eq = omega (arith, length-fit s.growth_factor h.rest);
                  growth_pos = h.growth_pos;
                  growth_small = h.growth_small;
                  size_small = omega arith;
                },
              )
        | inr e ↦ rw e (refl, h)
      ]

  -- Popping a stack that holds something, with its memory granted, returns the item on top and leaves
  -- the others.
  pub pop-Holds :
      {s : Stack A} {xs : List A} (x : A)
      → Holds s (xs ++ x ∷ [])
      → ((pop true s).0 ≡ some x) × Holds (pop true s).1 xs
  unfolding pop
  pop-Holds {s} {xs} x h =
      let n : s.count ≡ suc (length xs) = omega (arith, h.count_eq, length-append xs (x ∷ [])) in
      let read : get_or s.items (length xs) none ≡ some x = rw h.layout (read-end xs x h.rest) in
      let last : s.count - 1 ≡ length xs = omega arith in
      let some_left : (s.count == 0) ≡ false = ground arith in
      rw (some_left, last, read)
        (shrink-Holds (some x) (record {
          rest = none ∷ h.rest;
          layout = rw h.layout (clear-end xs x h.rest);
          count_eq = refl;
          size_eq = omega (arith, h.size_eq, length-append xs (x ∷ []));
          growth_pos = h.growth_pos;
          growth_small = h.growth_small;
          size_small = h.size_small;
        }))

  -- The top, and the item at an index, are those of the list.
  pub top-Holds : {s : Stack A} (xs : List A) (x : A) → Holds s (xs ++ x ∷ []) → top s ≡ some x
  unfolding top
  top-Holds {s} xs x h =
      let last : s.count - 1 ≡ length xs = omega (arith, h.count_eq, length-append xs (x ∷ [])) in
      let some_left : (s.count == 0) ≡ false =
        ground (arith, h.count_eq, length-append xs (x ∷ [])) in
      rw (some_left, last, h.layout) (read-end xs x h.rest)
