-- ===== src/LineReader/Found.antt =====
-- lafe_line_reader_next(): the lines that are in the buffer.
use archive_tar_builder.Prelude.{
  ℕ, zero, suc, ◌-◌, ◌≡◌, ◌≤◌, ◌<◌, refl, sym, ap, ◌∙◌, subst, Bool, true, false, not, ◌||◌, Option,
  none, some, List, ◌∷◌, ◌++◌, ◌==◌, Bytes, length, drop, c_str, arith, Bool-cases, inl, inr,
  length-drop,
}
use archive_tar_builder.LineReader.{LineReader, cspn, starts, find_eol, step_over, buffered}
use archive_tar_builder.LineReader.Splits.{emit, c_str-IsPlain, starts-IsPlain}
use archive_tar_builder.LineReader.Reads.{
  remaining, IsReady, length-terminate, step_over-IsReady, step_over-remaining,
}

-- What was found in the buffer: a line, with the others to come, or nothing but the start of one.
abbrev pub Gives : List Bytes → LineReader → Option Bytes → Type 0
Gives before lr (some s) = before ≡ s ∷ remaining lr
Gives before lr none = (before ≡ remaining lr) × (length lr.rest ≡ 0)

pub record Buffered (lr : LineReader) (found : Option Bytes × LineReader) : Type 0 where
  pub ready : IsReady found.1
  pub file_eq : found.1.file ≡ lr.file
  pub mode_eq : found.1.null_separator ≡ lr.null_separator
  pub gives : Gives (remaining lr) found.1 found.0

step_over-rest : (lr : LineReader) → length (step_over lr).rest ≤ length lr.rest - 1
unfolding step_over find_eol
step_over-rest lr =
    let r = drop 1 lr.rest in
    let n = cspn lr.null_separator r in
    omega (arith, length-terminate (drop n r), length-drop n r, length-drop 1 lr.rest)

-- The test for a line to give
emits :
    (lr : LineReader)
    → IsReady lr
    → (lr.null_separator || starts (lr.line ++ lr.rest))
      ≡ (lr.null_separator || not (length lr.line == 0))
emits lr h =
    ap (λ b. lr.null_separator || b)
      (ap (λ r. starts (lr.line ++ r)) h.rest_eq
        ∙ starts-IsPlain lr.null_separator lr.line h.tail h.plain)

pub given_line : (lr : LineReader) → IsReady lr → c_str (lr.line ++ lr.rest) ≡ lr.line
given_line lr h =
    ap (λ r. c_str (lr.line ++ r)) h.rest_eq
    ∙ c_str-IsPlain lr.null_separator lr.line h.tail h.plain

emit-true :
    (null : Bool) (l : Bytes) (rest : List Bytes)
    → (null || not (length l == 0)) ≡ true
    → emit null l rest ≡ l ∷ rest
unfolding emit
emit-true null l rest e = rw e refl

emit-false :
    (null : Bool) (l : Bytes) (rest : List Bytes)
    → (null || not (length l == 0)) ≡ false
    → emit null l rest ≡ rest
unfolding emit
emit-false null l rest e = rw e refl

pub buffered-Buffered :
    (n : ℕ) (lr : LineReader) → IsReady lr → length lr.rest ≤ n → Buffered lr (buffered n lr)
unfolding buffered emit step_over find_eol
buffered-Buffered zero lr h fits = record {
  ready = h;
  file_eq = refl;
  mode_eq = refl;
  gives = (refl, omega arith);
}
buffered-Buffered (suc n) lr h fits = elim (Bool-cases (length lr.rest == 0)) [
  | inl e ↦ rw e record { ready = h; file_eq = refl; mode_eq = refl; gives = (refl, ground arith) }
  | inr e ↦
      let more : 0 < length lr.rest = ground arith in
      let ready = step_over-IsReady lr h more in
      let left = step_over-remaining lr h more in
      elim (Bool-cases (lr.null_separator || starts (lr.line ++ lr.rest))) [
        | inl f ↦
            rw (e, f)
              record {
                ready = ready;
                file_eq = refl;
                mode_eq = refl;
                gives =
                    left
                    ∙ emit-true lr.null_separator lr.line (remaining (step_over lr))
                        (sym (emits lr h) ∙ f)
                    ∙ ap (λ s. s ∷ remaining (step_over lr)) (sym (given_line lr h));
              }
        | inr f ↦
            let later =
              buffered-Buffered n (step_over lr) ready (omega (arith, step_over-rest lr)) in
            rw (e, f)
              record {
                ready = later.ready;
                file_eq = later.file_eq;
                mode_eq = later.mode_eq;
                gives =
                    subst
                      (λ ls. Gives ls (buffered n (step_over lr)).1 (buffered n (step_over lr)).0)
                      (sym (
                        left
                        ∙ emit-false lr.null_separator lr.line (remaining (step_over lr))
                            (sym (emits lr h) ∙ f)))
                      later.gives;
              }
      ]
]
