-- ===== src/LineReader/Splits.antt =====
-- The lines of a text, and the places where the line reader cuts it.
use archive_tar_builder.Prelude.{
  ℕ, suc, ◌≡◌, refl, sym, ap, ◌∙◌, subst, Bool, true, false, not, ◌&&◌, ◌||◌, List, [], ◌∷◌, ◌++◌,
  ◌==◌, if◌then◌else◌, Bytes, length, take, drop, c_str, arith, Bool-cases, inl, inr, append-nil,
  append_assoc,
}
use archive_tar_builder.LineReader.{cspn, terminate, starts}

-- The bytes that end a line
unfoldable pub is_eol : Bool → ℕ → Bool
is_eol null_separator c = c == 0 || (not null_separator && (c == 13 || c == 10))

-- A line that has ended: lines without bytes are left out, unless lines end with NUL.
unfoldable pub emit : Bool → Bytes → List Bytes → List Bytes
emit null_separator l rest = if null_separator || not (length l == 0) then l ∷ rest else rest

-- The lines of a text behind `l`, the start of the first one. What stands behind the last end of a line
-- is a line, unless that is nothing.
unfoldable pub lines : Bool → Bytes → Bytes → List Bytes
unfolding is_eol emit
lines null_separator l [] = if length l == 0 then [] else l ∷ []
lines null_separator l (c ∷ s) =
    let rest = lines null_separator [] s in
    let longer = lines null_separator (l ++ c ∷ []) s in
    if is_eol null_separator c then emit null_separator l rest else longer

-- No byte ends a line.
unfoldable pub IsPlain : Bool → Bytes → Type 0
IsPlain null_separator [] = Unit {0}
IsPlain null_separator (c ∷ s) = (is_eol null_separator c ≡ false) × IsPlain null_separator s

module _ (null_separator : Bool) where
  cspn-eol : (c : ℕ) (s : Bytes) → is_eol null_separator c ≡ true → cspn null_separator (c ∷ s) ≡ 0
  unfolding cspn is_eol
  cspn-eol c s e = rw e refl

  cspn-plain :
      (c : ℕ) (s : Bytes)
      → is_eol null_separator c ≡ false
      → cspn null_separator (c ∷ s) ≡ suc (cspn null_separator s)
  unfolding cspn is_eol
  cspn-plain c s e = rw e refl

  pub lines-eol :
      (l : Bytes) (c : ℕ) (s : Bytes)
      → is_eol null_separator c ≡ true
      → lines null_separator l (c ∷ s) ≡ emit null_separator l (lines null_separator [] s)
  unfolding lines
  lines-eol l c s e = rw e refl

  lines-plain :
      (l : Bytes) (c : ℕ) (s : Bytes)
      → is_eol null_separator c ≡ false
      → lines null_separator l (c ∷ s) ≡ lines null_separator (l ++ c ∷ []) s
  unfolding lines
  lines-plain l c s e = rw e refl

  pub eol_nul : is_eol null_separator 0 ≡ true
  unfolding is_eol
  eol_nul = refl

  -- Looking for the end of a line, and putting a NUL there, leaves the lines as they are.
  pub lines-find_eol :
      (l s t : Bytes)
      → lines null_separator l (s ++ t)
        ≡ lines null_separator
            (l ++ take (cspn null_separator s) s)
            (terminate (drop (cspn null_separator s) s) ++ t)
  unfolding terminate cspn
  lines-find_eol l [] t = ap (λ l'. lines null_separator l' t) (sym (append-nil l))
  lines-find_eol l (c ∷ s) t = elim (Bool-cases (is_eol null_separator c)) [
    | inl e ↦
        lines-eol l c (s ++ t) e
        ∙ sym (lines-eol l 0 (s ++ t) eol_nul)
        ∙ ap (λ l'. lines null_separator l' (0 ∷ (s ++ t))) (sym (append-nil l))
        ∙ ap (λ n. lines null_separator (l ++ take n (c ∷ s)) (terminate (drop n (c ∷ s)) ++ t))
            (sym (cspn-eol c s e))
    | inr e ↦
        lines-plain l c (s ++ t) e
        ∙ lines-find_eol (l ++ c ∷ []) s t
        ∙ ap (λ l'. lines null_separator l' (terminate (drop (cspn null_separator s) s) ++ t))
            (append_assoc l (c ∷ []) (take (cspn null_separator s) s))
        ∙ ap (λ n. lines null_separator (l ++ take n (c ∷ s)) (terminate (drop n (c ∷ s)) ++ t))
            (sym (cspn-plain c s e))
  ]

  pub IsPlain-append :
      (l s : Bytes)
      → IsPlain null_separator l
      → IsPlain null_separator s
      → IsPlain null_separator (l ++ s)
  unfolding IsPlain
  IsPlain-append [] s h k = k
  IsPlain-append (c ∷ l) s h k = (h.0, IsPlain-append l s h.1 k)

  pub cspn-IsPlain : (s : Bytes) → IsPlain null_separator (take (cspn null_separator s) s)
  unfolding IsPlain cspn
  cspn-IsPlain [] = tt
  cspn-IsPlain (c ∷ s) = elim (Bool-cases (is_eol null_separator c)) [
    | inl e ↦ subst (λ n. IsPlain null_separator (take n (c ∷ s))) (sym (cspn-eol c s e)) tt
    | inr e ↦
        subst (λ n. IsPlain null_separator (take n (c ∷ s))) (sym (cspn-plain c s e))
          (e, cspn-IsPlain s)
  ]

  not_nul : (c : ℕ) → is_eol null_separator c ≡ false → (c == 0) ≡ false
  unfolding is_eol
  not_nul c e = elim (Bool-cases (c == 0)) [
    | inl f ↦ absurd (let g : is_eol null_separator c ≡ true = rw f refl in cc)
    | inr f ↦ f
  ]

  -- A plain line is the string that starts there, where a NUL or the end follows.
  pub c_str-IsPlain : (l s : Bytes) → IsPlain null_separator l → c_str (l ++ terminate s) ≡ l
  unfolding IsPlain c_str terminate
  c_str-IsPlain [] [] h = refl
  c_str-IsPlain [] (c ∷ s) h = refl
  c_str-IsPlain (c ∷ l) s h = rw (not_nul c h.0) (ap (λ t. c ∷ t) (c_str-IsPlain l s h.1))

  pub starts-IsPlain :
      (l s : Bytes) → IsPlain null_separator l → starts (l ++ terminate s) ≡ not (length l == 0)
  unfolding IsPlain starts terminate
  starts-IsPlain [] [] h = refl
  starts-IsPlain [] (c ∷ s) h = refl
  starts-IsPlain (c ∷ l) s h = rw (not_nul c h.0) (ground arith)
