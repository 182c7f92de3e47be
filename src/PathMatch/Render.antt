-- ===== src/PathMatch/Render.antt =====
-- pm_list() against the members of a class, for classes written with every byte escaped.
use archive_tar_builder.Prelude.{
  ℕ, zero, suc, ◌≤◌, ◌≡◌, ◌≢◌, refl, ap, ◌∙◌, Bool, true, false, not, List, [], ◌∷◌, arith, ◌==◌,
  ◌&&◌, ◌||◌, if◌then◌else◌, Bytes, length,
}
use archive_tar_builder.PathMatch.Class.{backslash, char_le, scan, pm_list}

-- A member of a class: a byte, or a range of bytes.
pub data ClassItem : Type 0 where
  single : ℕ → ClassItem
  range : ℕ → ℕ → ClassItem

-- `\x` and `\x-\y`
unfoldable pub render : List ClassItem → Bytes
render [] = []
render (single x ∷ items) = backslash ∷ x ∷ render items
render (range lo hi ∷ items) = backslash ∷ lo ∷ b'-' ∷ backslash ∷ hi ∷ render items

-- The start of a range is a member also where its end comes before it.
unfoldable pub member : List ClassItem → ℕ → Bool
unfolding char_le
member [] c = false
member (single x ∷ items) c = x == c || member items c
member (range lo hi ∷ items) c = lo == c || ((char_le lo c && char_le c hi) || member items c)

-- No range starts with the terminator.
abbrev pub NoNulStart : List ClassItem → Type 0
NoNulStart [] = Unit {0}
NoNulStart (single x ∷ items) = NoNulStart items
NoNulStart (range lo hi ∷ items) = (lo ≢ 0) × NoNulStart items

abbrev verdict : Bool → Bool → Bool
verdict accept b = if b then accept else not accept

-- A round at `\x`
scan-escaped :
    (f : ℕ) (accept : Bool) (c rs x : ℕ) (p : Bytes)
    → scan (suc f) accept c rs (backslash ∷ x ∷ p)
      ≡ (if x == c then accept else scan f accept c x p)
unfolding scan
scan-escaped f accept c rs x p = ground arith

-- A round at `-\y` behind the start of a range
scan-range :
    (f : ℕ) (accept : Bool) (c lo hi : ℕ) (p : Bytes)
    → lo ≢ 0
    → scan (suc f) accept c lo (b'-' ∷ backslash ∷ hi ∷ p)
      ≡ (if char_le lo c && char_le c hi then accept else scan f accept c 0 p)
unfolding scan
scan-range f accept c lo hi p h =
    let started : (lo == 0) ≡ false = ground arith in rw (started, scan) refl

scan-zero : (accept : Bool) (c rs : ℕ) → scan zero accept c rs [] ≡ not accept
unfolding scan
scan-zero accept c rs = refl

scan-nil : (f : ℕ) (accept : Bool) (c rs : ℕ) → scan (suc f) accept c rs [] ≡ not accept
unfolding scan
scan-nil f accept c rs = refl

verdict-or :
    (accept a b : Bool) → (if a then accept else verdict accept b) ≡ verdict accept (a || b)
verdict-or accept true b = refl
verdict-or accept false b = refl

scan-render :
    (f : ℕ) (accept : Bool) (c rs : ℕ) (items : List ClassItem)
    → length (render items) ≤ f
    → NoNulStart items
    → scan f accept c rs (render items) ≡ verdict accept (member items c)
unfolding render member
scan-render zero accept c rs [] h k = scan-zero accept c rs
scan-render (suc f) accept c rs [] h k = scan-nil f accept c rs
scan-render zero accept c rs (single x ∷ items) h k = absurd (omega arith)
scan-render zero accept c rs (range lo hi ∷ items) h k = absurd (omega arith)
scan-render (suc f) accept c rs (single x ∷ items) h k =
    scan-escaped f accept c rs x (render items)
    ∙ ap (λ t. if x == c then accept else t) (scan-render f accept c x items (omega arith) k)
    ∙ verdict-or accept (x == c) (member items c)
scan-render (suc zero) accept c rs (range lo hi ∷ items) h k = absurd (omega arith)
scan-render (suc (suc f)) accept c rs (range lo hi ∷ items) h k =
    scan-escaped (suc f) accept c rs lo (b'-' ∷ backslash ∷ hi ∷ render items)
    ∙ ap (λ t. if lo == c then accept else t)
        (scan-range f accept c lo hi (render items) k.0
          ∙ ap (λ t. if char_le lo c && char_le c hi then accept else t)
              (scan-render f accept c 0 items (omega arith) k.1)
          ∙ verdict-or accept (char_le lo c && char_le c hi) (member items c))
    ∙ verdict-or accept (lo == c) ((char_le lo c && char_le c hi) || member items c)

-- For a class whose bytes are all escaped, and where no range starts with the terminator, pm_list()
-- accepts exactly the members, and with a '!' before it exactly the other bytes.
pub pm_list-render :
    (items : List ClassItem) (c : ℕ)
    → NoNulStart items
    → (pm_list (render items) c ≡ member items c)
      × (pm_list (b'!' ∷ render items) c ≡ not (member items c))
unfolding pm_list render member
pm_list-render items c h = (plain items h, negated)
  where
    of_true : (b : Bool) → verdict true b ≡ b
    of_true true = refl
    of_true false = refl

    of_false : (b : Bool) → verdict false b ≡ not b
    of_false true = refl
    of_false false = refl

    whole :
        (items : List ClassItem)
        → NoNulStart items
        → scan (length (render items)) true c 0 (render items) ≡ member items c
    whole items k =
        scan-render (length (render items)) true c 0 items (omega arith) k
        ∙ of_true (member items c)

    plain : (items : List ClassItem) → NoNulStart items → pm_list (render items) c ≡ member items c
    plain [] k = refl
    plain (single x ∷ items) k = whole (single x ∷ items) k
    plain (range lo hi ∷ items) k = whole (range lo hi ∷ items) k

    negated : pm_list (b'!' ∷ render items) c ≡ not (member items c)
    negated =
        scan-render (length (render items)) false c 0 items (omega arith) h
        ∙ of_false (member items c)
