-- ===== src/PathBlocks.antt =====
-- b_file.c, b_file_write_path_blocks(): a text in as many blocks of 512 bytes as it needs.
use archive_tar_builder.Prelude.{
  ℕ, Option, zero, suc, ◌+◌, ◌-◌, ◌*◌, ◌/◌, ◌≤◌, ◌<◌, ◌≡◌, refl, sym, ap, ap₂, ◌∙◌, none, some, [],
  ◌∷◌, ◌++◌, arith, ltb, if◌then◌else◌, Bytes, length, take, drop, replicate, append-nil,
  append_assoc, length-take, length-drop, take-append-drop, take_all, drop_all, Bool-cases, inl,
  inr, subst,
}
use archive_tar_builder.Buffer.{
  block_size, system, Result, ok, err, Block, Channel, get_block, fill,
}
use archive_tar_builder.Buffer.Stream.{Streams, pad_to, get_block-Streams}
use archive_tar_builder.Buffer.Splice.{get_block-can_splice}

-- `size_t copylen = left < B_BLOCK_SIZE ? left : B_BLOCK_SIZE;`
unfoldable pub copylen : ℕ → ℕ
copylen left = if ltb left block_size then left else block_size

-- `for (i = i; i < len; i += B_BLOCK_SIZE)` with `n` rounds to go. `path` is the text from `i` on, which
-- the source finds by its index. A block of length 0, which is not asked for, would be NULL with
-- `errno` as it was.
unfoldable pub blocks_loop : ℕ → Channel → Bytes → ℕ → Result ℕ × Channel
blocks_loop zero ch path total = (ok total, ch)
blocks_loop (suc n) ch path total =
    let (got, ch') = get_block ch block_size in
    elim got [
      | err e ↦ (err e, ch')
      | ok none ↦ (err (system 0), ch')
      | ok (some b) ↦
          blocks_loop n (fill ch' b.offset (take (copylen (length path)) path))
            (drop block_size path) (total + b.given)
    ]

-- The rounds of the loop
unfoldable pub rounds : ℕ → ℕ
rounds len = (len + 511) / block_size

-- The loop of b_file_write_path_blocks() and of b_file_write_pax_path_blocks()
unfoldable pub write_path_blocks : Channel → Bytes → Result ℕ × Channel
unfolding rounds
write_path_blocks ch path = blocks_loop (rounds (length path)) ch path 0

take-copylen : (s : Bytes) → take (copylen (length s)) s ≡ take block_size s
unfolding copylen
take-copylen s = elim (Bool-cases (ltb (length s) block_size)) [
  | inl e ↦ rw e (take_all (length s) s (omega arith) ∙ sym (take_all block_size s (ground arith)))
  | inr e ↦ rw e refl
]

-- A padded text is its first block and the others.
pad_to-blocks :
    (n : ℕ) (s : Bytes)
    → n * block_size < length s
    → length s ≤ suc n * block_size
    → pad_to block_size (take block_size s) ++ pad_to (n * block_size) (drop block_size s)
      ≡ pad_to (suc n * block_size) s
pad_to-blocks zero s more h =
    ap₂ (λ a b. (a ++ replicate (block_size - length a) 0) ++ (b ++ replicate (0 - length b) 0))
      (take_all block_size s (omega arith)) (drop_all block_size s (omega arith))
    ∙ append-nil (s ++ replicate (block_size - length s) 0)
    ∙ ap (λ k. s ++ replicate k 0) (omega arith)
pad_to-blocks (suc n) s more h =
    let l : length (take block_size s) ≡ block_size = omega (arith, length-take block_size s) in
    ap
      (λ k.
        (take block_size s ++ replicate (block_size - k) 0)
        ++ pad_to (suc n * block_size) (drop block_size s))
      l
    ∙ ap (λ t. t ++ pad_to (suc n * block_size) (drop block_size s))
        (append-nil (take block_size s))
    ∙ sym (
        append_assoc (take block_size s) (drop block_size s)
          (replicate (suc n * block_size - length (drop block_size s)) 0))
    ∙ ap₂ (λ a k. a ++ replicate k 0) (take-append-drop block_size s)
        (omega (arith, length-drop block_size s))

blocks_loop-step :
    (n : ℕ) (ch ch₁ : Channel) (path : Bytes) (total : ℕ) (b : Block)
    → get_block ch block_size ≡ (ok (some b), ch₁)
    → blocks_loop (suc n) ch path total
      ≡ blocks_loop n
          (fill ch₁ b.offset (take (copylen (length path)) path))
          (drop block_size path)
          (total + b.given)
unfolding blocks_loop
blocks_loop-step n ch ch₁ path total b e = ground (arith, e)

blocks_loop-Streams :
    (n : ℕ) {ch : Channel} {s : Bytes} (path : Bytes) (total : ℕ)
    → Streams ch s
    → length path ≤ n * block_size
    → n * block_size < length path + block_size
    → (ch' : Channel) × (blocks_loop n ch path total ≡ (ok (total + n * block_size), ch'))
      × Streams ch' (s ++ pad_to (n * block_size) path)
unfolding blocks_loop
blocks_loop-Streams zero {ch} {s} [] total h fits tight =
    (ch, ap (λ t. (ok t, ch)) (omega arith), rw (append-nil s) h)
blocks_loop-Streams zero {ch} {s} (c ∷ path) total h fits tight = absurd (omega arith)
blocks_loop-Streams (suc n) {ch} {s} path total h fits tight =
    let v = take block_size path in
    let small : length v ≤ block_size = omega (arith, length-take block_size path) in
    let (b, ch₁, got, given, filled) = get_block-Streams v h small in
    let (ch', looped, sent) =
      blocks_loop-Streams n (drop block_size path) (total + b.given) filled
        (omega (arith, length-drop block_size path)) (omega (arith, length-drop block_size path)) in
    (
      ch',
      blocks_loop-step n ch ch₁ path total b got
          ∙ ap (λ t. blocks_loop n (fill ch₁ b.offset t) (drop block_size path) (total + b.given))
              (take-copylen path)
          ∙ looped
          ∙ ap (λ t. (ok t, ch')) (omega (arith, given)),
      subst (Streams ch')
          (append_assoc s (pad_to block_size v) (pad_to (n * block_size) (drop block_size path))
            ∙ ap (λ t. s ++ t) (pad_to-blocks n path (omega arith) fits))
          sent,
    )

-- On a channel whose stream is `s`, all of the text is sent, padded with zeros to whole blocks, and the
-- number returned is the padded length.
pub write_path_blocks-Streams :
    {ch : Channel} {s : Bytes} (path : Bytes)
    → Streams ch s
    → let padded = rounds (length path) * block_size in
      (ch' : Channel) × (write_path_blocks ch path ≡ (ok padded, ch'))
      × Streams ch' (s ++ pad_to padded path)
unfolding write_path_blocks
write_path_blocks-Streams {ch} path h =
    let (ch', e, k) =
      blocks_loop-Streams (rounds (length path)) path 0 h (omega arith) (omega arith) in
    (ch', e ∙ ap (λ t. (ok t, ch')) (omega arith), k)

after_got-can_splice :
    (n : ℕ) (ch : Channel) (path : Bytes) (total : ℕ) (got : Result (Option Block))
    → ((ch : Channel) (path : Bytes) (total : ℕ)
        → (blocks_loop n ch path total).1.buf.can_splice ≡ ch.buf.can_splice)
    → (elim got as (λ r. Result ℕ × Channel) [
      | err e ↦ (err e, ch)
      | ok none ↦ (err (system 0), ch)
      | ok (some b) ↦
          blocks_loop n
            (fill ch b.offset (take (copylen (length path)) path))
            (drop block_size path)
            (total + b.given)
    ]).1.buf.can_splice
      ≡ ch.buf.can_splice
unfolding fill
after_got-can_splice n ch path total (err e) rest = refl
after_got-can_splice n ch path total (ok none) rest = refl
after_got-can_splice n ch path total (ok (some b)) rest =
    rest (fill ch b.offset (take (copylen (length path)) path)) (drop block_size path)
      (total + b.given)

-- The loop leaves alone what the channel says of splice(2).
pub blocks_loop-can_splice :
    (n : ℕ) (ch : Channel) (path : Bytes) (total : ℕ)
    → (blocks_loop n ch path total).1.buf.can_splice ≡ ch.buf.can_splice
unfolding blocks_loop
blocks_loop-can_splice zero ch path total = refl
blocks_loop-can_splice (suc n) ch path total =
    after_got-can_splice n (get_block ch block_size).1 path total (get_block ch block_size).0
      (blocks_loop-can_splice n)
    ∙ get_block-can_splice ch block_size
