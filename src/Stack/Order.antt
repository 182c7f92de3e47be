-- ===== src/Stack/Order.antt =====
-- b_stack_shift() and b_stack_reverse(), which move the items inside the array.
use archive_tar_builder.Prelude.{
  ℕ, zero, suc, ◌+◌, ◌-◌, ◌*◌, ◌/◌, ◌≤◌, ◌<◌, ◌≡◌, refl, sym, ap, ◌∙◌, true, false, Option, none,
  some, List, [], ◌∷◌, ◌++◌, map, arith, length, get_or, set, length-append, length-map,
  length-reverse, append_assoc, append-nil, map-append, set-append_at, ◌==◌, reverse-append,
}
use archive_tar_builder.Prelude
use archive_tar_builder.Stack.{Stack, shift, move_down, swap_ends, reverse}
use archive_tar_builder.Stack.Refine.{Holds, shrink-Holds}

module _ {ℓ} {A : Type ℓ} where
  pub get_or-append_at :
      (ps : List A) (y : A) (ys : List A) (d : A) → get_or (ps ++ y ∷ ys) (length ps) d ≡ y
  get_or-append_at [] y ys d = refl
  get_or-append_at (p ∷ ps) y ys d = get_or-append_at ps y ys d

  get_or-append_next :
      (ps : List A) (x y : A) (ys : List A) (d : A)
      → get_or (ps ++ x ∷ y ∷ ys) (suc (length ps)) d ≡ y
  get_or-append_next [] x y ys d = refl
  get_or-append_next (p ∷ ps) x y ys d = get_or-append_next ps x y ys d

  abbrev last_of : A → List A → A
  last_of a [] = a
  last_of a (y ∷ ys) = last_of y ys

module _ {ℓ} {A : Type ℓ} where
  -- The loop of `shift` copies each item one slot down, and the last one is there twice.
  move_down_lem :
      (ps : List (Option A)) (a : Option A) (ys rest : List (Option A))
      → move_down (length ys) (suc (length ps)) (ps ++ (a ∷ (ys ++ rest)))
        ≡ ps ++ (ys ++ (last_of a ys ∷ rest))
  unfolding move_down
  move_down_lem ps a [] rest = refl
  move_down_lem ps a (y ∷ ys) rest =
      let next : suc (length ps) ≡ length (ps ++ y ∷ []) =
        omega (arith, length-append ps (y ∷ [])) in
      let items : List (Option A) = ps ++ (a ∷ (y ∷ (ys ++ rest))) in
      let down : suc (length ps) - 1 ≡ length ps = omega arith in
      ap
        (λ j.
          move_down (length ys) (suc (suc (length ps)))
            (set items j (get_or items (suc (length ps)) none)))
        down
      ∙ ap
          (λ t.
            move_down (length ys) (suc (suc (length ps)))
              (set (ps ++ (a ∷ (y ∷ (ys ++ rest)))) (length ps) t))
          (get_or-append_next ps a y (ys ++ rest) none)
      ∙ ap (λ t. move_down (length ys) (suc (suc (length ps))) t)
          (set-append_at ps a y (y ∷ (ys ++ rest)))
      ∙ ap (λ k. move_down (length ys) (suc k) (ps ++ (y ∷ (y ∷ (ys ++ rest))))) next
      ∙ ap (λ t. move_down (length ys) (suc (length (ps ++ y ∷ []))) t)
          (sym (append_assoc ps (y ∷ []) (y ∷ (ys ++ rest))))
      ∙ move_down_lem (ps ++ y ∷ []) y ys rest
      ∙ append_assoc ps (y ∷ []) (ys ++ (last_of y ys ∷ rest))

-- A list seen from both ends.
module _ {ℓ} {A : Type ℓ} where
  data Ends : List A → Type ℓ where
    empty : Ends []
    one : (a : A) → Ends (a ∷ [])
    more : (a : A) (m : List A) (b : A) → Ends (a ∷ (m ++ b ∷ []))

  Ends-cons : (a : A) (xs : List A) → Ends xs → Ends (a ∷ xs)
  Ends-cons a [] e = one a
  Ends-cons a (x ∷ xs) (one y) = more a [] y
  Ends-cons a (x ∷ xs) (more y m b) = more a (y ∷ m) b

  view-Ends : (xs : List A) → Ends xs
  view-Ends [] = empty
  view-Ends (x ∷ xs) = Ends-cons x xs (view-Ends xs)

module _ {ℓ} {A : Type ℓ} where
  -- One round of the loop of `reverse`.
  swap_once :
      (ps : List (Option A)) (a : Option A) (m : List (Option A)) (b : Option A)
      (tail : List (Option A)) (o : ℕ)
      → o ≡ length ps + suc (length m)
      → let items = ps ++ (a ∷ (m ++ (b ∷ tail))) in
        set (set items (length ps) (get_or items o none)) o (get_or items (length ps) none)
        ≡ (ps ++ b ∷ []) ++ (m ++ (a ∷ tail))
  swap_once ps a m b tail o e =
      let at : o ≡ length (ps ++ a ∷ m) = omega (arith, length-append ps (a ∷ m)) in
      let at' : o ≡ length (ps ++ b ∷ m) = omega (arith, length-append ps (b ∷ m)) in
      let items : List (Option A) = ps ++ (a ∷ (m ++ (b ∷ tail))) in
      let read : get_or items o none ≡ b =
        ap (λ t. get_or t o none) (sym (append_assoc ps (a ∷ m) (b ∷ tail)))
        ∙ ap (λ k. get_or ((ps ++ a ∷ m) ++ b ∷ tail) k none) at
        ∙ get_or-append_at (ps ++ a ∷ m) b tail none in
      ap (λ t. set (set items (length ps) t) o (get_or items (length ps) none)) read
      ∙ ap (λ t. set t o (get_or items (length ps) none))
          (set-append_at ps a b (m ++ (b ∷ tail)) ∙ sym (append_assoc ps (b ∷ m) (b ∷ tail)))
      ∙ ap (λ t. set ((ps ++ b ∷ m) ++ b ∷ tail) o t) (get_or-append_at ps a (m ++ (b ∷ tail)) none)
      ∙ ap (λ k. set ((ps ++ b ∷ m) ++ b ∷ tail) k a) at'
      ∙ set-append_at (ps ++ b ∷ m) b a tail
      ∙ append_assoc ps (b ∷ m) (a ∷ tail)
      ∙ sym (append_assoc ps (b ∷ []) (m ++ (a ∷ tail)))

  swap_ends_lem :
      (k n : ℕ) (ps : List (Option A)) {m : List (Option A)} (qs rest : List (Option A))
      → Ends m
      → length ps ≡ length qs
      → length m / 2 ≡ k
      → n ≡ length ps + length m + length qs
      → swap_ends k (length ps) n (ps ++ (m ++ (qs ++ rest)))
        ≡ ps ++ (Prelude.reverse m ++ (qs ++ rest))
  unfolding swap_ends
  swap_ends_lem zero n ps qs rest empty same half total = refl
  swap_ends_lem zero n ps qs rest (one a) same half total = refl
  swap_ends_lem zero n ps qs rest (more a m b) same half total =
      absurd (omega (arith, length-append m (b ∷ [])))
  swap_ends_lem (suc k) n ps qs rest empty same half total = absurd (omega arith)
  swap_ends_lem (suc k) n ps qs rest (one a) same half total = absurd (omega arith)
  swap_ends_lem (suc k) n ps qs rest (more a m b) same half total =
      ap (λ t. round t) (ap (λ t. ps ++ (a ∷ t)) (append_assoc m (b ∷ []) (qs ++ rest)))
      ∙ ap (λ t. swap_ends k (suc (length ps)) n t)
          (swap_once ps a m b (qs ++ rest) (n - 1 - length ps)
            (omega (arith, length-append m (b ∷ []))))
      ∙ ap (λ j. swap_ends k j n ((ps ++ b ∷ []) ++ (m ++ ((a ∷ qs) ++ rest))))
          (omega (arith, length-append ps (b ∷ [])))
      ∙ swap_ends_lem k n (ps ++ b ∷ []) (a ∷ qs) rest (view-Ends m)
          (omega (arith, length-append ps (b ∷ []))) (omega (arith, length-append m (b ∷ [])))
          (omega (arith, length-append ps (b ∷ []), length-append m (b ∷ [])))
      ∙ append_assoc ps (b ∷ []) (Prelude.reverse m ++ (a ∷ (qs ++ rest)))
      ∙ ap (λ t. ps ++ t)
          (sym (append_assoc (b ∷ Prelude.reverse m) (a ∷ []) (qs ++ rest))
            ∙ ap (λ t. t ++ (qs ++ rest)) (sym (reverse-ends a m b)))
    where
      round : List (Option A) → List (Option A)
      round t = swap_ends k (suc (length ps)) n (
          set (set t (length ps) (get_or t (n - 1 - length ps) none)) (n - 1 - length ps)
            (get_or t (length ps) none))

      reverse-ends :
          (a : Option A) (m : List (Option A)) (b : Option A)
          → Prelude.reverse (a ∷ (m ++ b ∷ [])) ≡ (b ∷ Prelude.reverse m) ++ a ∷ []
      reverse-ends a m b =
          reverse-append (a ∷ []) (m ++ b ∷ []) ∙ ap (λ t. t ++ a ∷ []) (reverse-append m (b ∷ []))

  reverse-map :
      (xs : List A) → Prelude.reverse (map {B = Option A} some xs) ≡ map some (Prelude.reverse xs)
  reverse-map [] = refl
  reverse-map (x ∷ xs) =
      reverse-append (some x ∷ []) (map some xs)
      ∙ ap (λ t. t ++ some x ∷ []) (reverse-map xs)
      ∙ sym (map-append some (Prelude.reverse xs) (x ∷ []))
      ∙ ap (map some) (sym (reverse-append (x ∷ []) xs))

  -- Shifting a stack that holds something, with its memory granted, returns the oldest item and leaves
  -- the others in their order.
  pub shift-Holds :
      {s : Stack A} {xs : List A} (x : A)
      → Holds s (x ∷ xs)
      → ((shift true s).0 ≡ some x) × Holds (shift true s).1 xs
  unfolding shift
  shift-Holds {s} {xs} x h =
      let last : s.count - 1 ≡ length (map some xs) =
        omega (arith, h.count_eq, length-map some xs) in
      let last' : length (map {B = Option A} some xs) ≡ length xs = length-map some xs in
      let some_left : (s.count == 0) ≡ false = ground (arith, h.count_eq) in
      rw
        (
          some_left,
          last,
          h.layout,
          move_down_lem [] (some x) (map some xs) h.rest,
          set-append_at (map some xs) (last_of (some x) (map some xs)) none h.rest,
          last',
        )
        (shrink-Holds (some x) (record {
          rest = none ∷ h.rest;
          layout = refl;
          count_eq = refl;
          size_eq = omega (arith, h.size_eq);
          growth_pos = h.growth_pos;
          growth_small = h.growth_small;
          size_small = h.size_small;
        }))

  -- Reversing keeps the items of a stack and turns their order round, however many there are.
  pub reverse-Holds :
      {s : Stack A} {xs : List A} → Holds s xs → Holds (reverse s) (Prelude.reverse xs)
  unfolding reverse
  reverse-Holds {s} {xs} h =
      let n : s.count ≡ length (map {B = Option A} some xs) =
        omega (arith, h.count_eq, length-map {B = Option A} some xs) in
      record {
        rest = h.rest;
        layout =
            rw (h.layout, n)
              (swap_ends_lem (length (map some xs) / 2) (length (map some xs)) [] [] h.rest
                  (view-Ends (map some xs)) refl refl (omega arith)
                ∙ ap (λ t. t ++ h.rest) (reverse-map xs));
        count_eq = h.count_eq ∙ sym (length-reverse xs);
        size_eq = omega (arith, h.size_eq, length-reverse xs);
        growth_pos = h.growth_pos;
        growth_small = h.growth_small;
        size_small = h.size_small;
      }
