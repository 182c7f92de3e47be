-- ===== src/Buffer/Flush.antt =====
-- The writing loop of b_buffer_flush() under partial writes, interruptions and errors.
use archive_tar_builder.Prelude.{
  ℕ, ◌+◌, ◌-◌, ◌≤◌, ◌<◌, ◌≡◌, ◌≢◌, refl, sym, ap, ◌∙◌, subst, min, Bool, true, false, List, [], ◌∷◌,
  ◌++◌, arith, ◌==◌, ltb, Bytes, length, take, drop, replicate, append-nil, append_assoc,
  take-append-drop, take_add, drop-drop, drop_all, Bool-cases, inl, inr,
}
use archive_tar_builder.Buffer.{
  system, ok, err, Answer, wrote, interrupted, failed, Channel, Written, all_done, gave_up,
  write_loop, flushed, flush,
}

-- The descriptor takes something with every call, or is interrupted: it never fails and never
-- takes nothing.
abbrev pub IsReliable : List Answer → Type 0
IsReliable [] = Unit {0}
IsReliable (wrote n ∷ answers) = (0 < n) × IsReliable answers
IsReliable (interrupted ∷ answers) = IsReliable answers
IsReliable (failed e ∷ answers) = ⊥

-- The loop wrote the given bytes, and what the descriptor will answer is still reliable.
abbrev pub WroteAll : Bytes → Written → Type 0
WroteAll output (all_done ret output' answers) = (output' ≡ output) × IsReliable answers
WroteAll output (gave_up e output' answers) = ⊥

-- Some bytes, and then those behind them.
split-write :
    (output bytes : Bytes) (off k : ℕ)
    → (output ++ take k (drop off bytes)) ++ drop (off + k) bytes ≡ output ++ drop off bytes
split-write output bytes off k =
    append_assoc output (take k (drop off bytes)) (drop (off + k) bytes)
    ∙ ap (λ t. output ++ (take k (drop off bytes) ++ t)) (sym (drop-drop off k bytes))
    ∙ ap (λ t. output ++ t) (take-append-drop k (drop off bytes))

-- Where nothing is left the loop ends.
write_loop-end :
    (answers : List Answer) (bytes : Bytes) (size off ret : ℕ) (output : Bytes)
    → size ≤ off
    → write_loop answers bytes size off ret false output ≡ all_done ret output answers
unfolding write_loop
write_loop-end [] bytes size off ret output h = ground arith
write_loop-end (wrote n ∷ answers) bytes size off ret output h = ground arith
write_loop-end (interrupted ∷ answers) bytes size off ret output h = ground arith
write_loop-end (failed e ∷ answers) bytes size off ret output h = ground arith

-- However the writes are cut into pieces, the bytes from `off` on arrive in order and once.
write_loop-WroteAll :
    (answers : List Answer) (bytes : Bytes) (size off ret : ℕ) (intr : Bool) (output : Bytes)
    → size ≡ length bytes
    → off < size
    → IsReliable answers
    → WroteAll (output ++ drop off bytes) (write_loop answers bytes size off ret intr output)
unfolding write_loop
write_loop-WroteAll [] bytes size off ret intr output e h r =
    let more : ltb off size ≡ true = ground arith in rw more (refl, tt)
write_loop-WroteAll (interrupted ∷ answers) bytes size off ret intr output e h r =
    let more : ltb off size ≡ true = ground arith in
    rw more (write_loop-WroteAll answers bytes size off ret true output e h r)
write_loop-WroteAll (failed x ∷ answers) bytes size off ret intr output e h r = absurd r
write_loop-WroteAll (wrote n ∷ answers) bytes size off ret intr output e h r =
    let k = min n (size - off) in
    let more : ltb off size ≡ true = ground arith in
    let some_taken : (k == 0) ≡ false = ground arith in
    rw (more, some_taken)
      (subst
        (λ o.
          WroteAll o
            (write_loop answers bytes size (off + k) k false (output ++ take k (drop off bytes))))
        (split-write output bytes off k)
        (elim (Bool-cases (ltb (off + k) size)) [
          | inl m ↦
              write_loop-WroteAll answers bytes size (off + k) k false
                (output ++ take k (drop off bytes)) e (ground arith) r.1
          | inr m ↦
              subst (WroteAll _)
                (sym (
                  write_loop-end answers bytes size (off + k) k (output ++ take k (drop off bytes))
                    (ground arith)))
                (
                  sym (append-nil (output ++ take k (drop off bytes)))
                      ∙ ap (λ t. (output ++ take k (drop off bytes)) ++ t)
                          (sym (drop_all (off + k) bytes (ground arith))),
                  r.1,
                )
        ]))

flush-writes :
    (ch : Channel)
    → ch.buf.fd ≢ 0
    → ch.buf.unused < ch.buf.size
    → flush ch ≡ flushed ch (write_loop ch.answers ch.buf.bytes ch.buf.size 0 0 false ch.output)
unfolding flush
flush-writes ch open_fd used = ground arith

flushed-failing :
    (ch : Channel) (e : ℕ) (answers : List Answer)
    → 0 < ch.buf.size
    → flushed ch (write_loop (failed e ∷ answers) ch.buf.bytes ch.buf.size 0 0 false ch.output)
      ≡ (err (system e), record ch { answers = answers })
unfolding flushed write_loop
flushed-failing ch e answers h = ground arith

-- How much a descriptor takes with these answers, where more is asked for.
abbrev pub taken : List Answer → ℕ
taken [] = 0
taken (wrote n ∷ answers) = n + taken answers
taken (interrupted ∷ answers) = taken answers
taken (failed e ∷ answers) = taken answers

-- Behind reliable answers that do not take everything, an answer of nothing ends the loop.
write_loop-lost :
    (before answers : List Answer) (bytes : Bytes) (size off ret : ℕ) (intr : Bool) (output : Bytes)
    → off + taken before < size
    → IsReliable before
    → write_loop (before ++ wrote 0 ∷ answers) bytes size off ret intr output
      ≡ all_done 0 (output ++ take (taken before) (drop off bytes)) answers
unfolding write_loop
write_loop-lost [] answers bytes size off ret intr output h r =
    let more : ltb off size ≡ true = ground arith in
    let nothing : (min 0 (size - off) == 0) ≡ true = ground arith in
    rw (more, nothing) (ap (λ o. all_done 0 o answers) (sym (append-nil output)))
write_loop-lost (interrupted ∷ before) answers bytes size off ret intr output h r =
    let more : ltb off size ≡ true = ground arith in
    rw more (write_loop-lost before answers bytes size off ret true output h r)
write_loop-lost (failed e ∷ before) answers bytes size off ret intr output h r = absurd r
write_loop-lost (wrote n ∷ before) answers bytes size off ret intr output h r =
    let more : ltb off size ≡ true = ground arith in
    let some_taken : (n == 0) ≡ false = ground arith in
    let all : min n (size - off) ≡ n = omega arith in
    rw (all, more, some_taken)
      (write_loop-lost before answers bytes size (off + n) n false
          (output ++ take n (drop off bytes)) (omega arith) r.1
        ∙ ap (λ o. all_done 0 o answers)
            (append_assoc output (take n (drop off bytes))
                (take (taken before) (drop (off + n) bytes))
              ∙ ap (λ t. output ++ (take n (drop off bytes) ++ take (taken before) t))
                  (sym (drop-drop off n bytes))
              ∙ ap (λ t. output ++ t) (take_add n (taken before) (drop off bytes))))

-- The channel after a flush that wrote everything.
abbrev pub emptied : Channel → List Answer → Channel
emptied ch answers = record {
  buf = record ch.buf { bytes = replicate ch.buf.size 0; unused = ch.buf.size };
  output = ch.output ++ ch.buf.bytes;
  answers = answers;
}

flushed-WroteAll :
    (ch : Channel) (w : Written)
    → WroteAll (ch.output ++ ch.buf.bytes) w
    → (ret : ℕ) × (answers : List Answer) × (flushed ch w ≡ (ok ret, emptied ch answers))
      × IsReliable answers
unfolding flushed
flushed-WroteAll ch (gave_up e output answers) h = absurd h
flushed-WroteAll ch (all_done ret output answers) h = (
  ret,
  answers,
  λ i. (
    ok ret,
    record {
      buf = record ch.buf { bytes = replicate ch.buf.size 0; unused = ch.buf.size };
      output = h.0 i;
      answers = answers;
    },
  ),
  h.1,
)

-- On a descriptor that is open and reliable, flushing a buffer that holds something writes all of its
-- bytes behind what was written before, leaves it empty and zeroed, and succeeds.
pub flush-IsReliable :
    (ch : Channel)
    → ch.buf.fd ≢ 0
    → ch.buf.unused < ch.buf.size
    → ch.buf.size ≡ length ch.buf.bytes
    → IsReliable ch.answers
    → (ret : ℕ) × (answers : List Answer) × (flush ch ≡ (ok ret, emptied ch answers))
      × IsReliable answers
flush-IsReliable ch open_fd used size_eq reliable =
    let (ret, answers, e, r) =
      flushed-WroteAll ch (write_loop ch.answers ch.buf.bytes ch.buf.size 0 0 false ch.output) (
        write_loop-WroteAll ch.answers ch.buf.bytes ch.buf.size 0 0 false ch.output size_eq
          (omega arith) reliable) in
    (ret, answers, flush-writes ch open_fd used ∙ e, r)

-- If write(2) fails at once, the flush of an open buffer that holds something fails with that error,
-- and the buffer keeps its bytes.
pub flush-failed :
    (ch : Channel) (e : ℕ) (answers : List Answer)
    → ch.buf.fd ≢ 0
    → ch.buf.unused < ch.buf.size
    → ch.answers ≡ failed e ∷ answers
    → flush ch ≡ (err (system e), record ch { answers = answers })
flush-failed ch e answers open_fd used h =
    flush-writes ch open_fd used
    ∙ ap (λ a. flushed ch (write_loop a ch.buf.bytes ch.buf.size 0 0 false ch.output)) h
    ∙ failing
  where
    failing :
        flushed ch (write_loop (failed e ∷ answers) ch.buf.bytes ch.buf.size 0 0 false ch.output)
        ≡ (err (system e), record ch { answers = answers })
    failing = flushed-failing ch e answers (omega arith)

-- If write(2) takes some of the bytes of an open buffer, over any number of calls and interruptions, and
-- nothing before it took them all, the flush succeeds: only what was taken is written, and the rest of
-- the buffer's bytes are gone.
pub flush-lost :
    (ch : Channel) (before answers : List Answer)
    → ch.buf.fd ≢ 0
    → ch.buf.unused < ch.buf.size
    → IsReliable before
    → taken before < ch.buf.size
    → ch.answers ≡ before ++ wrote 0 ∷ answers
    → flush ch ≡ (
      ok 0,
      record {
        buf = record ch.buf { bytes = replicate ch.buf.size 0; unused = ch.buf.size };
        output = ch.output ++ take (taken before) ch.buf.bytes;
        answers = answers;
      },
    )
unfolding flushed
flush-lost ch before answers open_fd used reliable less h =
    flush-writes ch open_fd used
    ∙ ap (λ a. flushed ch (write_loop a ch.buf.bytes ch.buf.size 0 0 false ch.output)) h
    ∙ ap (flushed ch) (
        write_loop-lost before answers ch.buf.bytes ch.buf.size 0 0 false ch.output (omega arith)
          reliable)
