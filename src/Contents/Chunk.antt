-- ===== src/Contents/Chunk.antt =====
-- b_file_write_contents(): a chunk that is read into the free part of the buffer.
use archive_tar_builder.Prelude.{
  Option, ◌⊎◌, ℕ, ◌+◌, ◌-◌, ◌%◌, ◌^◌, ◌≤◌, ◌<◌, ◌≡◌, ◌≢◌, refl, ap, ap₂, ◌∙◌, min, true, false,
  some, List, [], ◌∷◌, arith, ◌==◌, ltb, if◌then◌else◌, length, take, drop, length-take, Bool-cases,
  inl, inr,
}
use archive_tar_builder.Buffer.{
  Errno, Answer, block_size, ok, Block, Buffer, Channel, full, padded_size, get_block, take_block,
  fill, reclaim,
}
use archive_tar_builder.Contents.{
  eintr, last_errno, errno_after, with_channel, Read, max_chunk_size, ReadAnswer, got,
  read_interrupted, read_failed, read_some, read_retry, Transfer, again, error_io, end_round,
  apply_reclaim, reclaim_rest, after_read, after_block, through_buffer,
}
use archive_tar_builder.Contents.Padding.{padded_size-bounds}

-- read(2) gives all that it is asked for, perhaps after interruptions.
abbrev pub IsWhole : List ReadAnswer → Type 0
IsWhole [] = Unit {0}
IsWhole (got n ∷ reads) = (max_chunk_size ≤ n) × IsWhole reads
IsWhole (read_interrupted ∷ reads) = IsWhole reads
IsWhole (read_failed e ∷ reads) = ⊥

-- What `errno` can be behind calls that succeed, perhaps after interruptions.
abbrev pub Kept : Option Errno → Option Errno → Type 0
Kept before after = (after ≡ before) ⊎ (after ≡ some eintr)

pub Kept-trans : {a b c : Option Errno} → Kept a b → Kept b c → Kept a c
Kept-trans h (inr e) = inr e
Kept-trans (inl d) (inl e) = inl (e ∙ d)
Kept-trans (inr d) (inl e) = inr (e ∙ d)

-- A read that gives `want` bytes
pub record Gives (read : Read) (before : Option Errno) (want : ℕ) : Type 0 where
  pub reads : List ReadAnswer
  pub errno : Option Errno
  pub read_eq : read ≡ read_some want reads errno
  pub whole : IsWhole reads
  pub kept : Kept before errno

read_retry-Gives :
    (errno : Option Errno) (reads : List ReadAnswer) (want : ℕ)
    → IsWhole reads
    → want ≤ max_chunk_size
    → Gives (read_retry errno reads want) errno want
unfolding read_retry
read_retry-Gives errno [] want h k = record {
  reads = [];
  errno = errno;
  read_eq = refl;
  whole = tt;
  kept = inl refl;
}
read_retry-Gives errno (got n ∷ reads) want h k = record {
  reads = reads;
  errno = errno;
  read_eq = ap (λ m. read_some m reads errno) {x = min n want} {y = want} (omega arith);
  whole = h.1;
  kept = inl refl;
}
read_retry-Gives errno (read_interrupted ∷ reads) want h k =
    let g = read_retry-Gives (some eintr) reads want h k in
    record {
      reads = g.reads;
      errno = g.errno;
      read_eq = g.read_eq;
      whole = g.whole;
      kept = Kept-trans (inr refl) g.kept;
    }
read_retry-Gives errno (read_failed e ∷ reads) want h k = absurd h

errno_after-same :
    (errno : Option Errno) (answers : List Answer) → errno_after errno answers answers ≡ errno
unfolding errno_after last_errno
errno_after-same errno answers =
    ap (λ n. last_errno errno (take n answers)) {x = length answers - length answers} {y = 0}
      (omega arith)

-- The block of all that is free.
get_block-unused :
    (ch : Channel)
    → ch.buf.fd ≢ 0
    → ch.buf.unused ≢ 0
    → ch.buf.unused % block_size ≡ 0
    → get_block ch ch.buf.unused ≡ (
      ok (some (record { offset = ch.buf.size - ch.buf.unused; given = ch.buf.unused })),
      record ch { buf = record ch.buf { unused = 0 } },
    )
unfolding get_block full padded_size take_block
get_block-unused ch open_fd room blocks = ground arith

-- The transfer after a chunk of `k` bytes.
abbrev pub after_chunk : Transfer → ℕ → List ReadAnswer → Option Errno → Transfer
after_chunk t k reads errno = record t {
  ch =
      fill (record t.ch { buf = record t.ch.buf { unused = t.ch.buf.unused - padded_size k } })
        (t.ch.buf.size - t.ch.buf.unused) (take k t.file.content);
  file = record t.file { content = drop k t.file.content; reads = reads; errno = errno };
  total = t.total + padded_size k;
  real_total = t.real_total + k;
}

-- What is behind the read, when all free space was taken and `k` bytes were read.
abbrev filled : Transfer → ℕ → List ReadAnswer → Option Errno → Transfer
filled t k reads errno = record t {
  ch =
      fill (record t.ch { buf = record t.ch.buf { unused = 0 } }) (t.ch.buf.size - t.ch.buf.unused)
        (take k t.file.content);
  file = record t.file { content = drop k t.file.content; reads = reads; errno = errno };
  total = t.total + t.ch.buf.unused;
}

-- Where less was read than was asked for.
abbrev pub short_read : Transfer → ℕ → List ReadAnswer → Option Errno → Transfer
short_read t k reads errno = record (filled t k reads errno) { total = t.total }

reclaim-unused :
    (buf : Buffer) (k u : ℕ)
    → buf.unused ≡ 0
    → 0 < u
    → k ≤ u
    → u % block_size ≡ 0
    → u < 2 ^ 62
    → reclaim buf k u ≡ (ok (u - padded_size k), record buf { unused = u - padded_size k })
unfolding reclaim
reclaim-unused buf k u none_left pos fits blocks small =
    let (above, below, _) = padded_size-bounds k u fits blocks small in
    let zero_test : (u == 0) ≡ false = ground arith in
    let block_test : (u % block_size == 0) ≡ true = ground arith in
    rw (zero_test, block_test)
      (ap₂ (λ a b. (ok a, record buf { unused = b })) (omega arith) (omega arith))

-- The transfer with these numbers of free bytes and of bytes sent.
abbrev counted : Transfer → ℕ → List ReadAnswer → Option Errno → ℕ → ℕ → Transfer
counted t k reads errno unused total = record t {
  ch =
      fill (record t.ch { buf = record t.ch.buf { unused = unused } })
        (t.ch.buf.size - t.ch.buf.unused) (take k t.file.content);
  file = record t.file { content = drop k t.file.content; reads = reads; errno = errno };
  total = total;
  real_total = t.real_total + k;
}

reclaim_rest-filled :
    (t : Transfer) (k : ℕ) (reads : List ReadAnswer) (errno : Option Errno)
    → 0 < k
    → k ≤ t.ch.buf.unused
    → t.ch.buf.unused % block_size ≡ 0
    → t.ch.buf.unused < 2 ^ 62
    → end_round k (reclaim_rest (filled t k reads errno) k t.ch.buf.unused)
      ≡ again (after_chunk t k reads errno)
unfolding reclaim_rest apply_reclaim fill end_round
reclaim_rest-filled t k reads errno pos fits blocks small =
    let u = t.ch.buf.unused in
    let (above, below, _) = padded_size-bounds k u fits blocks small in
    let more : ltb 0 k ≡ true = ground arith in
    elim (Bool-cases (u - k == 0)) [
      | inl e ↦
          let none_left : ◌≡◌ {A = ℕ} 0 (u - padded_size k) = ground arith in
          let all : t.total + u ≡ t.total + padded_size k = ground arith in
          rw (e, more) (ap₂ (λ a b. again (counted t k reads errno a b)) none_left all)
      | inr e ↦
          let total_eq : t.total + u - (u - padded_size k) ≡ t.total + padded_size k =
            omega arith in
          let reclaimed =
            reclaim-unused (filled t k reads errno).ch.buf k u refl (omega arith) fits blocks
              small in
          rw (e, more)
            (ap
                (λ r.
                  let a = apply_reclaim (filled t k reads errno) r in
                  again (record a { real_total = a.real_total + k }))
                reclaimed
              ∙ ap (λ b. again (counted t k reads errno (u - padded_size k) b)) total_eq)
    ]

-- A round that goes through the buffer, up to the answer of read(2)
through_buffer-read :
    (t : Transfer) (max_read : ℕ)
    → t.ch.buf.fd ≢ 0
    → t.ch.buf.unused ≢ 0
    → t.ch.buf.unused % block_size ≡ 0
    → let u = t.ch.buf.unused in
      let k = min max_read u in
      through_buffer t max_read
      ≡ after_read
          (record t { ch = record t.ch { buf = record t.ch.buf { unused = 0 } } })
          (record { offset = t.ch.buf.size - u; given = u })
          k
          (read_retry t.file.errno t.file.reads k)
unfolding through_buffer after_block with_channel
through_buffer-read t max_read open_fd room blocks =
    let u = t.ch.buf.unused in
    let k = min max_read u in
    let want : (if ltb u max_read then u else max_read) ≡ k = ground arith in
    let b : Block = record { offset = t.ch.buf.size - u; given = u } in
    let ch' : Channel = record t.ch { buf = record t.ch.buf { unused = 0 } } in
    ap (after_block t max_read) (get_block-unused t.ch open_fd room blocks)
    ∙ ap
        (λ w.
          let e = errno_after t.file.errno t.ch.answers t.ch.answers in
          after_read (record t { ch = ch'; file = record t.file { errno = e } }) b w
            (read_retry e t.file.reads w))
        want
    ∙ ap
        (λ e.
          after_read (record t { ch = ch'; file = record t.file { errno = e } }) b k
            (read_retry e t.file.reads k))
        (errno_after-same t.file.errno t.ch.answers)

-- A chunk that is read whole
pub record Reads (t : Transfer) (max_read : ℕ) : Type 0 where
  pub reads : List ReadAnswer
  pub errno : Option Errno
  pub round_eq :
      through_buffer t max_read ≡ again (after_chunk t (min max_read t.ch.buf.unused) reads errno)
  pub whole : IsWhole reads
  pub kept : Kept t.file.errno errno

pub through_buffer-IsWhole :
    (t : Transfer) (max_read : ℕ)
    → t.ch.buf.fd ≢ 0
    → t.ch.buf.unused ≢ 0
    → t.ch.buf.unused % block_size ≡ 0
    → t.ch.buf.unused < 2 ^ 62
    → IsWhole t.file.reads
    → 0 < max_read
    → max_read ≤ max_chunk_size
    → min max_read t.ch.buf.unused ≤ length t.file.content
    → Reads t max_read
unfolding after_read
through_buffer-IsWhole t max_read open_fd room blocks small whole pos limit enough =
    let u = t.ch.buf.unused in
    let k = min max_read u in
    let g = read_retry-Gives t.file.errno t.file.reads k whole (omega arith) in
    let l : length (take k t.file.content) ≡ k = omega (arith, length-take k t.file.content) in
    let not_short : ltb k k ≡ false = ground arith in
    let b : Block = record { offset = t.ch.buf.size - u; given = u } in
    let t' : Transfer = record t { ch = record t.ch { buf = record t.ch.buf { unused = 0 } } } in
    record {
      reads = g.reads;
      errno = g.errno;
      round_eq =
          through_buffer-read t max_read open_fd room blocks
          ∙ ap (after_read t' b k) g.read_eq
          ∙ ap
              (λ r.
                if ltb r k
                then error_io g.errno (short_read t k g.reads g.errno)
                else end_round r (reclaim_rest (filled t k g.reads g.errno) r u))
              l
          ∙ rw not_short
              (reclaim_rest-filled t k g.reads g.errno (omega arith) (omega arith) blocks small);
      whole = g.whole;
      kept = g.kept;
    }

-- A chunk that the file ends in
pub record EndsIn (t : Transfer) (max_read : ℕ) : Type 0 where
  pub reads : List ReadAnswer
  pub errno : Option Errno
  pub round_eq :
      through_buffer t max_read
      ≡ error_io errno (short_read t (min max_read t.ch.buf.unused) reads errno)
  pub kept : Kept t.file.errno errno

pub through_buffer-EndsIn :
    (t : Transfer) (max_read : ℕ)
    → t.ch.buf.fd ≢ 0
    → t.ch.buf.unused ≢ 0
    → t.ch.buf.unused % block_size ≡ 0
    → IsWhole t.file.reads
    → max_read ≤ max_chunk_size
    → length t.file.content < min max_read t.ch.buf.unused
    → EndsIn t max_read
unfolding after_read
through_buffer-EndsIn t max_read open_fd room blocks whole limit short =
    let u = t.ch.buf.unused in
    let k = min max_read u in
    let n = length t.file.content in
    let g = read_retry-Gives t.file.errno t.file.reads k whole (omega arith) in
    let l : length (take k t.file.content) ≡ n = omega (arith, length-take k t.file.content) in
    let is_short : ltb n k ≡ true = ground arith in
    let b : Block = record { offset = t.ch.buf.size - u; given = u } in
    let t' : Transfer = record t { ch = record t.ch { buf = record t.ch.buf { unused = 0 } } } in
    record {
      reads = g.reads;
      errno = g.errno;
      round_eq =
          through_buffer-read t max_read open_fd room blocks
          ∙ ap (after_read t' b k) g.read_eq
          ∙ ap
              (λ r.
                if ltb r k
                then error_io g.errno (short_read t k g.reads g.errno)
                else end_round r (reclaim_rest (filled t k g.reads g.errno) r u))
              l
          ∙ rw is_short refl;
      kept = g.kept;
    }
