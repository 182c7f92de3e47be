-- ===== src/Util/Join.antt =====
-- b_string_join() against the concatenation of a list with a separator.
use archive_tar_builder.Prelude.{
  ℕ, zero, suc, ◌+◌, ◌-◌, ◌*◌, ◌^◌, ◌<◌, ◌≡◌, refl, sym, ap, ap₂, ◌∙◌, true, false, none, some,
  List, [], ◌∷◌, ◌++◌, arith, ◌==◌, ltb, if◌then◌else◌, ◌>>=◌, Bytes, add64, mul64, NoNul, strlen,
  memcpy, length, take, drop, set, get_or, replicate, append_assoc, append-nil, length-append,
  take-append_self, map, c_str_self, NoNul-append, Bool-cases, inl, inr, set-append_at, take_all,
  drop-drop, memcpy-append, leb,
}
use archive_tar_builder.Text.{BString}
use archive_tar_builder.Text.Refine.{IsText}
use archive_tar_builder.Stack.{Stack, item_at}
use archive_tar_builder.Stack.Refine.{Holds}
use archive_tar_builder.Util.{join_len, put_bytes, copy_item, join_copy, join}
use archive_tar_builder.Util.Texts.{
  join_bytes, AreTexts, lead, tail_bytes, tail_bytes-eq, total, length-tail_bytes,
}

item_at-Holds {ℓ} :
    {A : Type ℓ} {s : Stack A} (xs : List A) (x : A) (ys : List A)
    → Holds s (xs ++ x ∷ ys)
    → item_at s (length xs) ≡ some x
unfolding item_at
item_at-Holds {A} {s} xs x ys h =
    let inside : leb s.count (length xs) ≡ false =
      ground (arith, h.count_eq, length-append xs (x ∷ ys)) in
    rw (inside, h.layout) (read xs)
  where
    read : (ps : List A) → get_or (map some (ps ++ x ∷ ys) ++ h.rest) (length ps) none ≡ some x
    read [] = refl
    read (p ∷ ps) = read ps

nil_of_length : (w : Bytes) → length w ≡ 0 → w ≡ []
nil_of_length [] h = refl
nil_of_length (c ∷ w) h = absurd (omega arith)

module _ (done t src v : Bytes) (n : ℕ) where
  put_bytes_lem :
      take n src ≡ v
      → n ≡ length v
      → put_bytes (length done) (done ++ t) src n
        ≡ (length (done ++ v), (done ++ v) ++ drop (length v) t)
  unfolding put_bytes
  put_bytes_lem taken e = elim (Bool-cases (ltb 0 n)) [
    | inl some_bytes ↦ rw some_bytes (λ i. (off i, buf i))
    | inr no_bytes ↦ rw no_bytes (λ i. (off' no_bytes i, buf' no_bytes i))
  ]
    where
      nothing : ltb 0 n ≡ false → v ≡ []
      nothing h = nil_of_length v (ground arith)

      off' : ltb 0 n ≡ false → length done ≡ length (done ++ v)
      off' h = omega (arith, length-append done v, ap length (nothing h))

      buf' : ltb 0 n ≡ false → done ++ t ≡ (done ++ v) ++ drop (length v) t
      buf' h =
          ap (λ a. a ++ t) (sym (append-nil done))
          ∙ ap (λ w. (done ++ w) ++ drop (length w) t) (sym (nothing h))

      off : length done + n ≡ length (done ++ v)
      off = omega (arith, length-append done v)

      buf : memcpy (done ++ t) (length done) src n ≡ (done ++ v) ++ drop (length v) t
      buf =
          memcpy-append done t src n
          ∙ ap₂ (λ a k. done ++ (a ++ drop k t)) taken e
          ∙ sym (append_assoc done v (drop (length v) t))

text-take : {item : BString} {x : Bytes} → IsText item x → take item.len item.str ≡ x
text-take {item} {x} h = ap₂ take h.len_eq h.buffer ∙ take-append_self x (0 ∷ [])

-- One round of the copying loop writes the lead and the text just past what was written.
module _ (sep x done : Bytes) (no_nul : NoNul sep) where
  sep-take : take (strlen sep) sep ≡ sep
  sep-take =
      ap (λ t. take (length t) sep) (c_str_self sep no_nul)
      ∙ take_all (length sep) sep (omega arith)

  copy_item_lem :
      (i : ℕ) {item : BString} (t : Bytes)
      → IsText item x
      → copy_item sep i item (length done) (done ++ t) ≡ (
        length ((done ++ lead sep i) ++ x),
        ((done ++ lead sep i) ++ x) ++ drop (length x) (drop (length (lead sep i)) t),
      )
  unfolding copy_item lead
  copy_item_lem zero {item} t h =
      put_bytes_lem done t item.str x item.len (text-take h) h.len_eq
      ∙ ap (λ d. (length (d ++ x), (d ++ x) ++ drop (length x) t)) (sym (append-nil done))
  copy_item_lem (suc i) {item} t h =
      let pos : ltb 0 (suc i) ≡ true = ground arith in
      rw pos (
        ap (λ r. put_bytes r.0 r.1 item.str item.len)
          (put_bytes_lem done t sep sep (strlen sep) sep-take (ap length (c_str_self sep no_nul)))
        ∙ put_bytes_lem (done ++ sep) (drop (length sep) t) item.str x item.len (text-take h)
            h.len_eq)

-- The copying loop, from the item behind `ps` on.
module _ (sep : Bytes) (no_nul : NoNul sep) (s : Stack BString) where
  join_copy_lem :
      (ps qs : List BString) (xs : List Bytes) (done t : Bytes)
      → Holds s (ps ++ qs)
      → AreTexts qs xs
      → join_copy (length qs) (length ps) s sep (length done) (done ++ t)
        ≡ some (
            (done ++ tail_bytes sep (length ps) xs)
            ++ drop (length (tail_bytes sep (length ps) xs)) t)
  unfolding join_copy tail_bytes
  join_copy_lem ps [] [] done t h texts = ap (λ d. some (d ++ t)) (sym (append-nil done))
  join_copy_lem ps [] (x ∷ xs) done t h texts = absurd texts
  join_copy_lem ps (q ∷ qs) [] done t h texts = absurd texts
  join_copy_lem ps (q ∷ qs) (x ∷ xs) done t h texts =
      let next : Holds s ((ps ++ q ∷ []) ++ qs) = rw (append_assoc ps (q ∷ []) qs) h in
      let at : suc (length ps) ≡ length (ps ++ q ∷ []) = omega (arith, length-append ps (q ∷ [])) in
      let l = lead sep (length ps) in
      let done' = (done ++ l) ++ x in
      let t' = drop (length x) (drop (length l) t) in
      ap
        (λ o. o >>= λ item.
          let (off, buf) = copy_item sep (length ps) item (length done) (done ++ t) in
          join_copy (length qs) (suc (length ps)) s sep off buf)
        (item_at-Holds ps q qs h)
      ∙ ap (λ r. join_copy (length qs) (suc (length ps)) s sep r.0 r.1)
          (copy_item_lem sep x done no_nul (length ps) t texts.0)
      ∙ ap (λ k. join_copy (length qs) k s sep (length done') (done' ++ t')) at
      ∙ join_copy_lem (ps ++ q ∷ []) qs xs done' t' next texts.1
      ∙ ap (λ k. some ((done' ++ tail_bytes sep k xs) ++ drop (length (tail_bytes sep k xs)) t'))
          (sym at)
      ∙ ap some (regroup l (tail_bytes sep (suc (length ps)) xs))
    where
      regroup :
          (l r : Bytes)
          → (((done ++ l) ++ x) ++ r) ++ drop (length r) (drop (length x) (drop (length l) t))
            ≡ (done ++ ((l ++ x) ++ r)) ++ drop (length ((l ++ x) ++ r)) t
      regroup l r =
          ap₂ ◌++◌ (ap (λ a. a ++ r) (append_assoc done l x) ∙ append_assoc done (l ++ x) r) (
            drop-drop (length x) (length r) (drop (length l) t)
            ∙ drop-drop (length l) (length x + length r) t
            ∙ ap (λ k. drop k t) (omega (arith, length-append (l ++ x) r, length-append l x)))

  join_len_lem :
      (ps qs : List BString) (xs : List Bytes) (len : ℕ)
      → Holds s (ps ++ qs)
      → AreTexts qs xs
      → len + total xs < 2 ^ 64
      → join_len (length qs) (length ps) s len ≡ some (len + total xs)
  unfolding join_len total
  join_len_lem ps [] [] len h texts small = ap some (omega arith)
  join_len_lem ps [] (x ∷ xs) len h texts small = absurd texts
  join_len_lem ps (q ∷ qs) [] len h texts small = absurd texts
  join_len_lem ps (q ∷ qs) (x ∷ xs) len h texts small =
      let next : Holds s ((ps ++ q ∷ []) ++ qs) = rw (append_assoc ps (q ∷ []) qs) h in
      let added : add64 len q.len ≡ len + length x = omega (arith, texts.0.len_eq) in
      let at : suc (length ps) ≡ length (ps ++ q ∷ []) = omega (arith, length-append ps (q ∷ [])) in
      ap (λ o. o >>= λ item. join_len (length qs) (suc (length ps)) s (add64 len item.len))
        (item_at-Holds ps q qs h)
      ∙ ap₂ (λ k l. join_len (length qs) k s l) at added
      ∙ join_len_lem (ps ++ q ∷ []) qs xs (len + length x) next texts.1 (omega arith)
      ∙ ap some (omega arith)

length-AreTexts : (ss : List BString) (xs : List Bytes) → AreTexts ss xs → length ss ≡ length xs
length-AreTexts [] [] h = refl
length-AreTexts [] (x ∷ xs) h = absurd h
length-AreTexts (s ∷ ss) [] h = absurd h
length-AreTexts (s ∷ ss) (x ∷ xs) h = ap suc (length-AreTexts ss xs h.1)

join_bytes-NoNul :
    (sep : Bytes) (ss : List BString) (xs : List Bytes)
    → NoNul sep
    → AreTexts ss xs
    → NoNul (join_bytes sep xs)
unfolding join_bytes
join_bytes-NoNul sep [] [] h texts = tt
join_bytes-NoNul sep [] (x ∷ xs) h texts = absurd texts
join_bytes-NoNul sep (s ∷ ss) [] h texts = absurd texts
join_bytes-NoNul sep (s ∷ []) (x ∷ []) h texts = texts.0.no_nul
join_bytes-NoNul sep (s ∷ []) (x ∷ y ∷ xs) h texts = absurd texts.1
join_bytes-NoNul sep (s ∷ r ∷ ss) (x ∷ []) h texts = absurd texts.1
join_bytes-NoNul sep (s ∷ r ∷ ss) (x ∷ y ∷ xs) h texts =
    NoNul-append x (sep ++ join_bytes sep (y ∷ xs)) texts.0.no_nul (
      NoNul-append sep (join_bytes sep (y ∷ xs)) h
        (join_bytes-NoNul sep (r ∷ ss) (y ∷ xs) h texts.1))

length-join_bytes :
    (sep x : Bytes) (xs : List Bytes)
    → length (join_bytes sep (x ∷ xs)) ≡ length sep * length xs + (length x + total xs)
unfolding tail_bytes lead
length-join_bytes sep x xs =
    ap length (sym (tail_bytes-eq sep (x ∷ xs)))
    ∙ omega (arith, length-append x (tail_bytes sep 1 xs), length-tail_bytes sep 0 xs)

drop-zeros : (n : ℕ) → drop n (replicate {A = ℕ} (n + 1) 0) ≡ 0 ∷ []
drop-zeros zero = refl
drop-zeros (suc n) =
    ap (λ k. drop (suc n) (replicate {A = ℕ} k 0)) {x = suc n + 1} {y = suc (n + 1)} (omega arith)
    ∙ drop-zeros n

-- The length that the first loop is started with, and what the loop then adds up.
join_len-total :
    (sep : Bytes) {s : Stack BString} {ss : List BString} (xs : List Bytes)
    → NoNul sep
    → Holds s ss
    → AreTexts ss xs
    → length (join_bytes sep xs) < 2 ^ 64
    → join_len s.count 0 s (if s.count == 0 then 0 else mul64 (strlen sep) (s.count - 1))
      ≡ some (length (join_bytes sep xs))
unfolding join_len total join_bytes
join_len-total sep {s} {ss} [] no_nul h texts small =
    let none_held : s.count ≡ 0 = omega (arith, h.count_eq, length-AreTexts ss [] texts) in
    rw none_held refl
join_len-total sep {s} {ss} (x ∷ xs) no_nul h texts small =
    let n : s.count ≡ length ss = h.count_eq in
    let k : length ss ≡ suc (length xs) = length-AreTexts ss (x ∷ xs) texts in
    let nonzero : (s.count == 0) ≡ false = ground (arith, n, k) in
    let product : strlen sep * (s.count - 1) ≡ length sep * length xs =
      ap₂ ◌*◌ (ap length (c_str_self sep no_nul)) (omega (arith, n, k)) in
    let whole : length (join_bytes sep (x ∷ xs)) ≡ length sep * length xs + (length x + total xs) =
      length-join_bytes sep x xs in
    let start : mul64 (strlen sep) (s.count - 1) ≡ length sep * length xs = omega arith in
    ap (λ b. join_len s.count 0 s (if b then 0 else mul64 (strlen sep) (s.count - 1))) nonzero
    ∙ ap₂ (λ c l. join_len c 0 s l) n start
    ∙ join_len_lem sep no_nul s [] ss (x ∷ xs) (length sep * length xs) h texts (omega arith)
    ∙ ap some (sym whole)

-- With its memory granted, joining a stack of string objects gives the string object of their texts
-- with the separator between them, if that has fewer than 2^64 bytes.
pub join-IsText :
    (sep : Bytes) {s : Stack BString} {ss : List BString} (xs : List Bytes)
    → NoNul sep
    → Holds s ss
    → AreTexts ss xs
    → length (join_bytes sep xs) < 2 ^ 64
    → (r : BString) × (join true true sep s ≡ some r) × IsText r (join_bytes sep xs)
unfolding join
join-IsText sep {s} {ss} xs no_nul h texts small =
    let all = join_bytes sep xs in
    let len = length all in
    let copied : join_copy s.count 0 s sep 0 (replicate (len + 1) 0) ≡ some (all ++ 0 ∷ []) =
      ap (λ k. join_copy k 0 s sep 0 (replicate (len + 1) 0)) h.count_eq
      ∙ join_copy_lem sep no_nul s [] ss xs [] (replicate (len + 1) 0) h texts
      ∙ ap (λ b. some (b ++ drop (length b) (replicate (len + 1) 0))) (tail_bytes-eq sep xs)
      ∙ ap (λ t. some (all ++ t)) (drop-zeros len) in
    (
      record { str = set (all ++ 0 ∷ []) len 0; len = len },
      ap
            (λ o. o >>= λ l. join_copy s.count 0 s sep 0 (replicate (l + 1) 0) >>= λ buf.
              some (record { str = set buf l 0; len = l }))
            (join_len-total sep xs no_nul h texts small)
          ∙ ap (λ o. o >>= λ buf. some (record { str = set buf len 0; len = len })) copied,
      record {
        buffer = set-append_at all 0 0 [];
        len_eq = refl;
        no_nul = join_bytes-NoNul sep ss xs no_nul texts;
      },
    )
