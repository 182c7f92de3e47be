-- ===== src/Buffer/Splice.antt =====
-- What the channel says of splice(2) is not changed by flushing and by taking blocks.
use archive_tar_builder.Prelude.{
  ℕ, ◌≡◌, refl, ◌∙◌, false, ◌||◌, Option, ◌==◌, ltb, Bool-cases, inl, inr,
}
use archive_tar_builder.Buffer.{
  Result, ok, err, Block, Channel, Written, all_done, gave_up, write_loop, flushed, flush, full,
  take_block, padded_size, get_block,
}

flushed-can_splice :
    (ch : Channel) (w : Written) → (flushed ch w).1.buf.can_splice ≡ ch.buf.can_splice
unfolding flushed
flushed-can_splice ch (all_done ret output answers) = refl
flushed-can_splice ch (gave_up e output answers) = refl

flush-can_splice : (ch : Channel) → (flush ch).1.buf.can_splice ≡ ch.buf.can_splice
unfolding flush
flush-can_splice ch = elim (Bool-cases (ch.buf.fd == 0)) [
  | inl e ↦ rw e refl
  | inr e ↦ elim (Bool-cases (ch.buf.size == 0 || ch.buf.unused == ch.buf.size)) [
    | inl f ↦ rw (e, f) refl
    | inr f ↦
        rw (e, f)
          (flushed-can_splice ch
            (write_loop ch.answers ch.buf.bytes ch.buf.size 0 0 false ch.output))
  ]
]

take_block-can_splice :
    (ch : Channel) (n : ℕ) → (take_block ch n).1.buf.can_splice ≡ ch.buf.can_splice
unfolding take_block
take_block-can_splice ch n = elim (Bool-cases (ltb ch.buf.unused n)) [
  | inl e ↦ rw e refl
  | inr e ↦ rw e refl
]

after_flush-can_splice :
    (ch : Channel) (n : ℕ) (flushed : Result ℕ)
    → (elim flushed as (λ r. Result (Option Block) × Channel) [
      | err e ↦ (err e, ch)
      | ok _ ↦ take_block ch n
    ]).1.buf.can_splice
      ≡ ch.buf.can_splice
after_flush-can_splice ch n (err e) = refl
after_flush-can_splice ch n (ok ret) = take_block-can_splice ch n

pub get_block-can_splice :
    (ch : Channel) (len : ℕ) → (get_block ch len).1.buf.can_splice ≡ ch.buf.can_splice
unfolding get_block
get_block-can_splice ch len = elim (Bool-cases (len == 0)) [
  | inl e ↦ rw e refl
  | inr e ↦ elim (Bool-cases (ch.buf.fd == 0)) [
    | inl f ↦ rw (e, f) refl
    | inr f ↦ elim (Bool-cases (full ch.buf)) [
      | inl g ↦
          rw (e, f, g)
            (after_flush-can_splice (flush ch).1 (padded_size len) (flush ch).0
              ∙ flush-can_splice ch)
      | inr g ↦ rw (e, f, g) (take_block-can_splice ch (padded_size len))
    ]
  ]
]
