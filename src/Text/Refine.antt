-- ===== src/Text/Refine.antt =====
-- b_string.c against lists of bytes.
use archive_tar_builder.Prelude.{
  add64, Bool-cases, inl, inr, ◌+◌, ◌^◌, ◌<◌, ◌≡◌, refl, sym, ap, ◌∙◌, true, false, some, [], ◌∷◌,
  ◌++◌, arith, ◌==◌, Bytes, NoNul, c_str, strncpy, strlen, length, take, c_str-NoNul, strncpy-c_str,
  strncpy_all, NoNul-append, append_assoc, length-append, take-append_self, append-nil,
}
use archive_tar_builder.Text.{BString, new, dup, append, append_str}

-- The string object `s` holds the text `xs`: its bytes, a terminator, and the right length.
pub record IsText (s : BString) (xs : Bytes) : Type 0 where
  pub buffer : s.str ≡ xs ++ 0 ∷ []
  pub len_eq : s.len ≡ length xs
  pub no_nul : NoNul xs

-- A new string holds the bytes of its argument up to the terminator.
pub new-IsText : (str : Bytes) → (s : BString) × (new true str ≡ some s) × IsText s (c_str str)
unfolding new
new-IsText str = (
  record { str = strncpy (strlen str) str ++ 0 ∷ []; len = strlen str },
  refl,
  record {
    buffer = ap (λ t. t ++ 0 ∷ []) (strncpy-c_str str);
    len_eq = refl;
    no_nul = c_str-NoNul str;
  },
)

-- A duplicate is equal to the string.
pub dup-IsText : {s : BString} {xs : Bytes} → IsText s xs → dup true s ≡ some s
unfolding dup
dup-IsText {s} {xs} h = ap some (λ i. record {
  str =
      (ap (λ t. strncpy t s.str ++ 0 ∷ []) h.len_eq
          ∙ ap (λ t. strncpy (length xs) t ++ 0 ∷ []) h.buffer
          ∙ ap (λ t. t ++ 0 ∷ []) (strncpy_all xs (0 ∷ []) h.no_nul)
          ∙ sym h.buffer)
        i;
  len = s.len;
})

-- What both appending functions build: the old bytes, the added ones, a terminator.
append-IsText_bytes :
    {s : BString} {xs : Bytes} (ys : Bytes)
    → IsText s xs
    → NoNul ys
    → length xs + length ys < 2 ^ 64
    → IsText
        (record { str = take s.len s.str ++ (ys ++ 0 ∷ []); len = add64 s.len (length ys) })
        (xs ++ ys)
append-IsText_bytes {s} {xs} ys h no_nul small = record {
  buffer =
      ap (λ n. take n s.str ++ (ys ++ 0 ∷ [])) h.len_eq
      ∙ ap (λ t. take (length xs) t ++ (ys ++ 0 ∷ [])) h.buffer
      ∙ ap (λ t. t ++ (ys ++ 0 ∷ [])) (take-append_self xs (0 ∷ []))
      ∙ sym (append_assoc xs ys (0 ∷ []));
  len_eq = omega (arith, h.len_eq, length-append xs ys);
  no_nul = NoNul-append xs ys h.no_nul no_nul;
}

-- With its memory granted, appending a string object gives the concatenation of the texts, if that has
-- fewer than 2^64 bytes.
pub append-IsText :
    {s a : BString} {xs : Bytes} (ys : Bytes)
    → IsText s xs
    → IsText a ys
    → length xs + length ys < 2 ^ 64
    → (r : BString) × (append true s a ≡ some r) × IsText r (xs ++ ys)
unfolding append
append-IsText {s} {a} {xs} [] h k small =
    let none_added : (a.len == 0) ≡ true = ground (arith, k.len_eq) in
    rw (none_added, append-nil) (s, refl, h)
append-IsText {s} {a} {xs} (y ∷ ys) h k small =
    let some_added : (a.len == 0) ≡ false = ground (arith, k.len_eq) in
    let copied : strncpy a.len a.str ≡ y ∷ ys =
      ap (λ n. strncpy n a.str) k.len_eq
      ∙ ap (λ t. strncpy (length (y ∷ ys)) t) k.buffer
      ∙ strncpy_all (y ∷ ys) (0 ∷ []) k.no_nul in
    rw (some_added, copied, k.len_eq) (_, refl, append-IsText_bytes (y ∷ ys) h k.no_nul small)

no_bytes : (t : Bytes) → (length t == 0) ≡ true → t ≡ []
no_bytes [] e = refl
no_bytes (c ∷ t) e = ground arith

-- With its memory granted, appending a C string gives the concatenation with its bytes up to the
-- terminator, if that has fewer than 2^64 bytes.
pub append_str-IsText :
    {s : BString} {xs : Bytes} (add : Bytes)
    → IsText s xs
    → length xs + strlen add < 2 ^ 64
    → (r : BString) × (append_str true s add ≡ some r) × IsText r (xs ++ c_str add)
unfolding append_str
append_str-IsText {s} {xs} add h small = elim (Bool-cases (strlen add == 0)) [
  | inl e ↦ rw e (s, refl, rw (no_bytes (c_str add) e, append-nil) h)
  | inr e ↦
      rw (e, strncpy-c_str) (_, refl, append-IsText_bytes (c_str add) h (c_str-NoNul add) small)
]
