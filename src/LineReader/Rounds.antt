-- ===== src/LineReader/Rounds.antt =====
-- A call of lafe_line_reader_next(), round by round.
use archive_tar_builder.Prelude.{
  ℕ, suc, ◌+◌, ◌-◌, ◌*◌, ◌%◌, ◌^◌, ◌≡◌, ◌≤◌, ◌<◌, ◌⊎◌, refl, sym, ap, ap₂, ◌∙◌, subst, Bool, true,
  false, Option, none, some, [], ◌∷◌, ◌++◌, ◌==◌, ltb, leb, if◌then◌else◌, Bytes, length, take,
  drop, c_str, arith, Bool-cases, inl, inr, append-nil, append_assoc, length-append, length-take,
  length-drop, take-append-drop, take_all,
}
use archive_tar_builder.LineReader.{
  Input, LineReader, terminate, buffered, line, no_more, failed, out_of_fuel, Round, done, again,
  final_data, make_room, refill, after_room, without_line, after_buffered, round, unread,
}
use archive_tar_builder.LineReader.Splits.{lines, IsPlain}
use archive_tar_builder.LineReader.Reads.{
  remaining, held, Filled, IsReady, find_eol-remaining, find_eol-IsReady,
}
use archive_tar_builder.LineReader.Found.{Buffered, given_line, buffered-Buffered}

-- How much of the file the calls to come can read: a round for each byte, and one for the end.
abbrev pub measure : Option Input → ℕ
measure none = 0
measure (some f) = suc (length f.content)

-- What a round does
abbrev pub Sound : LineReader → Round → Type 0
Sound lr (done (line s) lr') =
    IsReady lr' × (lr'.null_separator ≡ lr.null_separator) × (remaining lr ≡ s ∷ remaining lr')
Sound lr (done no_more lr') = remaining lr ≡ []
Sound lr (done failed lr') = ⊥
Sound lr (done out_of_fuel lr') = ⊥
Sound lr (again lr') =
    IsReady lr'
    × (lr'.null_separator ≡ lr.null_separator)
    × (remaining lr ≡ remaining lr')
    × (measure lr'.file < measure lr.file)

no_bytes : (s : Bytes) → length s ≡ 0 → s ≡ []
no_bytes [] e = refl
no_bytes (c ∷ s) e = absurd (omega (arith, e))

lines-end :
    (null : Bool) (l : Bytes) (b : Bool)
    → (length l == 0) ≡ b
    → lines null l [] ≡ (if b then [] else l ∷ [])
unfolding lines
lines-end null l b e = ap (λ b'. if b' then [] else l ∷ []) e

-- A round is as good for a reader with the same lines to give.
Sound-moved :
    (lr lr' : LineReader) (r : Round)
    → lr'.null_separator ≡ lr.null_separator
    → remaining lr' ≡ remaining lr
    → measure lr'.file ≡ measure lr.file
    → Sound lr' r
    → Sound lr r
Sound-moved lr lr' (done (line s) lr'') m e k h = (h.0, h.1 ∙ m, sym e ∙ h.2)
Sound-moved lr lr' (done no_more lr'') m e k h = sym e ∙ h
Sound-moved lr lr' (done failed lr'') m e k h = h
Sound-moved lr lr' (done out_of_fuel lr'') m e k h = h
Sound-moved lr lr' (again lr'') m e k h = (h.0, h.1 ∙ m, sym e ∙ h.2, omega (arith, h.3, k))

final_data-Sound :
    (lr : LineReader) → IsReady lr → lr.file ≡ none → length lr.rest ≡ 0 → Sound lr (final_data lr)
unfolding final_data IsPlain terminate unread
final_data-Sound lr h ended empty =
    let text = length-append lr.line lr.rest in
    let rest : remaining lr ≡ lines lr.null_separator lr.line [] =
      ap₂ (λ r f. lines lr.null_separator lr.line (r ++ unread f)) {x = lr.rest}
        (no_bytes lr.rest empty) ended in
    elim (Bool-cases (length (lr.line ++ lr.rest) == 0)) [
      | inl e ↦ rw e (rest ∙ lines-end lr.null_separator lr.line true (ground (arith, text, empty)))
      | inr e ↦
          let last : LineReader = record lr {
            consumed = lr.consumed + length (lr.line ++ lr.rest);
            line = [];
            rest = [];
          } in
          let after : remaining last ≡ [] =
            ap (λ f. lines lr.null_separator [] (unread f)) ended
            ∙ lines-end lr.null_separator [] true refl in
          rw e (
            record {
              plain = tt;
              tail = [];
              rest_eq = refl;
              small = omega (arith, h.small, text);
              filled = subst (λ f. Filled f last) (sym ended) tt;
            },
            refl,
            rest
                ∙ lines-end lr.null_separator lr.line false (ground (arith, text, empty))
                ∙ ap₂ (λ s ls. s ∷ ls) {x = lr.line} {y = c_str (lr.line ++ lr.rest)}
                    (sym (given_line lr h)) (sym after),
          )
    ]

refill-Sound :
    (f : Input) (lr : LineReader)
    → IsPlain lr.null_separator lr.line
    → lr.file ≡ some f
    → lr.rest ≡ []
    → lr.consumed ≡ 0
    → f.fails ≡ false
    → length lr.line < lr.buff_length
    → length lr.line + length f.content < 2 ^ 62
    → Sound lr (refill f lr)
unfolding refill unread
refill-Sound f lr plain opened nothing start sound room small =
    let wanted = lr.buff_length - length (lr.line ++ lr.rest) in
    let bytes = take wanted f.content in
    let null = lr.null_separator in
    let l0 = length-append lr.line lr.rest in
    let l1 : length lr.rest ≡ 0 = ap length nothing in
    let l2 = length-take wanted f.content in
    let l3 = length-append lr.rest bytes in
    let l4 = length-drop wanted f.content in
    let shorter : length (lr.rest ++ bytes) ≤ length f.content = omega (arith, l1, l2, l3) in
    let size : wanted + length lr.line ≡ lr.buff_length = omega (arith, l0, l1, room) in
    let before : remaining lr ≡ lines null lr.line (lr.rest ++ f.content) =
      ap (λ file. lines null lr.line (lr.rest ++ unread file)) opened in
    elim (Bool-cases (ltb (length f.content) wanted)) [
      | inl e ↦
          let got : LineReader = record lr { file = none; rest = lr.rest ++ bytes } in
          let all : bytes ≡ f.content = take_all wanted f.content (ground arith) in
          rw (e, sound)
            (
              find_eol-IsReady got plain (omega (arith, shorter, small, start)) tt,
              refl,
              before
                  ∙ ap (λ b. lines null lr.line (lr.rest ++ b)) (sym all)
                  ∙ ap (lines null lr.line) (sym (append-nil (lr.rest ++ bytes)))
                  ∙ sym (find_eol-remaining got),
              omega (arith, ap measure opened),
            )
      | inr e ↦
          let f' : Input = record f { content = drop wanted f.content } in
          let got : LineReader = record lr { file = some f'; rest = lr.rest ++ bytes } in
          let enough : wanted ≤ length f.content = ground arith in
          rw e (
            find_eol-IsReady got plain (omega (arith, l1, l2, l3, l4, small, start))
                (sound, omega (arith, room), inl (omega (arith, l1, l2, l3, size, start, enough))),
            refl,
            before
                ∙ ap (λ b. lines null lr.line (lr.rest ++ b))
                    (sym (take-append-drop wanted f.content))
                ∙ ap (lines null lr.line) (sym (append_assoc lr.rest bytes (drop wanted f.content)))
                ∙ sym (find_eol-remaining got),
            omega (arith, ap measure opened, l4, size, room, enough),
          )
    ]

-- Moving what was read makes room, and so does a buffer of twice the size.
room_moved :
    (lr : LineReader)
    → (held lr ≡ lr.buff_length) ⊎ ((held lr ≡ 0) × (lr.buff_length ≡ 8192))
    → 0 < lr.consumed
    → length lr.line < lr.buff_length
room_moved lr (inl full) more = omega (arith, full)
room_moved lr (inr (none_held, size)) more = absurd (omega (arith, none_held))

room_doubled :
    (lr : LineReader)
    → (held lr ≡ lr.buff_length) ⊎ ((held lr ≡ 0) × (lr.buff_length ≡ 8192))
    → 0 < lr.buff_length
    → held lr < 2 ^ 62
    → (length lr.line < (lr.buff_length * 2) % 2 ^ 64)
      × (lr.buff_length < (lr.buff_length * 2) % 2 ^ 64)
room_doubled lr (inl full) size small = (omega (arith, full), omega (arith, full))
room_doubled lr (inr (none_held, fresh)) size small =
    (omega (arith, none_held, fresh), omega (arith, fresh))

-- A buffer that is full of what is no line yet gets room.
after_room-Sound :
    (f : Input) (lr : LineReader)
    → IsReady lr
    → lr.file ≡ some f
    → length lr.rest ≡ 0
    → Filled (some f) lr
    → Sound lr (after_room lr f (make_room lr))
unfolding after_room make_room unread
after_room-Sound f lr h opened empty (sound, size, full) =
    let nothing = no_bytes lr.rest empty in
    let u : length (unread lr.file) ≡ length f.content = ap (λ x. length (unread x)) opened in
    elim (Bool-cases (ltb 0 lr.consumed)) [
      | inl e ↦
          let moved : LineReader = record lr { consumed = 0 } in
          rw e (
            Sound-moved lr moved (refill f moved) refl refl refl (
              refill-Sound f moved h.plain opened nothing refl sound
                (room_moved lr full (ground arith)) (omega (arith, h.small, u))))
      | inr e ↦
          let (fits, larger) = room_doubled lr full size (omega (arith, h.small)) in
          let grown : LineReader = record lr { buff_length = (lr.buff_length * 2) % 2 ^ 64 } in
          let no_wrap : leb ((lr.buff_length * 2) % 2 ^ 64) lr.buff_length ≡ false = ground arith in
          rw (e, no_wrap)
            (Sound-moved lr grown (refill f grown) refl refl refl (
              refill-Sound f grown h.plain opened nothing (ground arith) sound fits
                (omega (arith, h.small, u))))
    ]

without_line-Sound :
    (lr : LineReader) (file : Option Input)
    → lr.file ≡ file
    → IsReady lr
    → length lr.rest ≡ 0
    → Sound lr (without_line file lr)
unfolding without_line
without_line-Sound lr none e h empty = final_data-Sound lr h e empty
without_line-Sound lr (some f) e h empty =
    after_room-Sound f lr h e empty (subst (λ x. Filled x lr) e h.filled)

after_buffered-Sound :
    (lr : LineReader) (found : Option Bytes × LineReader)
    → Buffered lr found
    → Sound lr (after_buffered found)
unfolding after_buffered
after_buffered-Sound lr (some s, lr') b = (b.ready, b.mode_eq, b.gives)
after_buffered-Sound lr (none, lr') b =
    Sound-moved lr lr' (without_line lr'.file lr') b.mode_eq (sym b.gives.0) (ap measure b.file_eq)
      (without_line-Sound lr' lr'.file refl b.ready b.gives.1)

pub round-Sound : (lr : LineReader) → IsReady lr → Sound lr (round lr)
unfolding round
round-Sound lr h =
    after_buffered-Sound lr (buffered (length lr.rest) lr)
      (buffered-Buffered (length lr.rest) lr h (omega arith))
