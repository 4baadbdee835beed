-- ===== src/WebSocket/Http/Lines.antt =====
-- The lines of a header: walking through them, and the end of the header.
use incubator.Prelude.{
  ℕ, zero, suc, ◌+◌, ◌<◌, ◌≡◌, refl, ap, sym, ◌∙◌, true, false, none, some, List, [], ◌∷◌, ◌++◌,
  append-nil, append_assoc, All, arith, length, length-append, Option-cases, inl, inr,
}
use incubator.Bytes.{Bytes}
use incubator.WebSocket.Http.{nl, end_of_header, is_empty, cut, for_each_line}
use incubator.WebSocket.Http.Cuts.{
  lacks, cut_joined, prepend, prepend-some, cut-append, cut_at, cut_nowhere,
}

-- A line of a header: not empty, and without a carriage return.
pub record IsLine (line : Bytes) : Type 0 where
  pub filled : is_empty line ≡ false
  pub plain : lacks 13 line ≡ true

-- Lines, each with its end.
abbrev pub render : List Bytes → Bytes
render [] = []
render (l ∷ ls) = l ++ (nl ++ render ls)

abbrev pub AreLines : List Bytes → Type 0
AreLines = All IsLine

pub render-append : (ls ks : List Bytes) → render (ls ++ ks) ≡ render ls ++ render ks
render-append [] ks = refl
render-append (l ∷ ls) ks = simp (render-append ls ks, append_assoc)

abbrev pub fold_lines : {S : Type 0} → (Bytes → S → S) → List Bytes → S → S
fold_lines f [] s = s
fold_lines f (l ∷ ls) s = fold_lines f ls (f l s)

length_render : (l more : Bytes) → length (l ++ (nl ++ more)) ≡ length l + 2 + length more
length_render l more = omega (arith, length-append {0} l (nl ++ more))

module _ {S : Type 0} (f : Bytes → S → S) where
  step_line :
      (fuel : ℕ) (lines line rest : Bytes) (s : S)
      → cut nl lines ≡ some (line, rest)
      → for_each_line f (suc fuel) lines s ≡ for_each_line f fuel rest (f line s)
  unfolding for_each_line
  step_line fuel lines line rest s h = rw (h, for_each_line)

  end_lines :
      (fuel : ℕ) (lines : Bytes) (s : S)
      → cut nl lines ≡ none
      → for_each_line f (suc fuel) lines s ≡ s
  unfolding for_each_line
  end_lines fuel lines s h = rw (h, for_each_line)

  -- The callback is called with the lines in order, whatever fuel there is beyond their bytes, and the
  -- walk ends at a rest without a carriage return.
  pub for_each-render :
      (fuel : ℕ) (ls : List Bytes) (rest : Bytes) (s : S)
      → All (λ l. lacks 13 l ≡ true) ls
      → lacks 13 rest ≡ true
      → length (render ls ++ rest) < fuel
      → for_each_line f fuel (render ls ++ rest) s ≡ fold_lines f ls s
  for_each-render zero ls rest s h k e = absurd (omega arith)
  for_each-render (suc fuel) [] rest s h k e =
      end_lines fuel rest s (cut_nowhere 13 (10 ∷ []) rest k)
  for_each-render (suc fuel) (l ∷ ls) rest s h k e =
      step_line fuel ((l ++ (nl ++ render ls)) ++ rest) l (render ls ++ rest) s (
        ap (cut nl) (append_assoc l (nl ++ render ls) rest)
        ∙ cut_at 13 (10 ∷ []) l (render ls ++ rest) h.0)
      ∙ for_each-render fuel ls rest (f l s) h.1 k (
          omega (
            arith,
            length-append {0} (l ++ (nl ++ render ls)) rest,
            length-append {0} (render ls) rest,
            length_render l (render ls),
          ))

  -- The callback is called with each line of a header, the empty one at its end included.
  pub for_each-header :
      (ls : List Bytes) (s : S)
      → All (λ l. lacks 13 l ≡ true) (ls ++ ([] ∷ []))
      → for_each_line f (suc (length (render ls ++ nl))) (render ls ++ nl) s
        ≡ fold_lines f (ls ++ ([] ∷ [])) s
  for_each-header ls s h =
      ap (λ (t : Bytes). for_each_line f (suc (length (render ls ++ nl))) t s)
        (sym (append-nil (render ls ++ nl))
          ∙ ap (λ (t : Bytes). t ++ []) (sym (render-append ls ([] ∷ []))))
      ∙ for_each-render (suc (length (render ls ++ nl))) (ls ++ ([] ∷ [])) [] s h refl (
          omega (
            arith,
            ap (length {A = ℕ}) (append-nil (render (ls ++ ([] ∷ [])))),
            ap (length {A = ℕ}) (render-append ls ([] ∷ [])),
          ))

  pub fold_lines-append :
      (ls ks : List Bytes) (s : S) → fold_lines f (ls ++ ks) s ≡ fold_lines f ks (fold_lines f ls s)
  fold_lines-append [] ks s = refl
  fold_lines-append (l ∷ ls) ks s = fold_lines-append ls ks (f l s)

pub plain-AreLines :
    (ls : List Bytes) → AreLines ls → All (λ l. lacks 13 l ≡ true) (ls ++ ([] ∷ []))
plain-AreLines [] h = (refl, tt)
plain-AreLines (l ∷ ls) h = (h.0.plain, plain-AreLines ls h.1)

-- The line stands in the text, with its end.
abbrev pub InText : Bytes → Bytes → Type 0
InText line whole = (front back : Bytes) × (whole ≡ front ++ (line ++ (nl ++ back)))

-- What the callback keeps for the lines of a text, the walk keeps.
pub for_each_inv {κ} :
    {S : Type 0} (P : S → Type κ) (f : Bytes → S → S) (whole : Bytes)
    → ((line : Bytes) (s : S) → InText line whole → P s → P (f line s))
    → (fuel : ℕ) (front lines : Bytes) (s : S) → whole ≡ front ++ lines
    → P s
    → P (for_each_line f fuel lines s)
unfolding for_each_line
for_each_inv P f whole keep zero front lines s e h = h
for_each_inv P f whole keep (suc fuel) front lines s e h = elim (Option-cases (cut nl lines)) [
  | inl gone ↦ rw (gone, for_each_line) h
  | inr ((line, rest), found) ↦
      let joined : whole ≡ front ++ (line ++ (nl ++ rest)) =
        e ∙ ap (◌++◌ front) (cut_joined nl lines line rest found) in
      rw (found, for_each_line)
        (for_each_inv P f whole keep fuel (front ++ (line ++ nl)) rest (f line s)
          (joined ∙ simp (append_assoc)) (keep line s (front, rest, joined) h))
]

-- Lines without the end of the last one.
abbrev pub body : Bytes → List Bytes → Bytes
body l [] = l
body l (k ∷ ks) = l ++ (nl ++ body k ks)

pub body-append_end :
    (l : Bytes) (ls : List Bytes) → body l ls ++ end_of_header ≡ render (l ∷ ls) ++ nl
body-append_end l [] = simp (append_assoc)
body-append_end l (k ∷ ks) = simp (body-append_end k ks, append_assoc)

-- An end of a line that a line follows is not the end of the header.
skip_end :
    (k more : Bytes)
    → IsLine k
    → cut end_of_header (nl ++ (k ++ more)) ≡ prepend nl (cut end_of_header (k ++ more))
unfolding cut
skip_end [] more h = absurd (cc (h.filled))
skip_end (c ∷ cs) more h = let plain = h.plain in ground arith

-- The header ends at the first empty line.
pub cut-end_of_header :
    (l : Bytes) (ls : List Bytes) (rest : Bytes)
    → AreLines (l ∷ ls)
    → cut end_of_header (render (l ∷ ls) ++ (nl ++ rest)) ≡ some (body l ls, rest)
cut-end_of_header l [] rest h =
    ap (cut end_of_header) (simp (append_assoc)) ∙ cut_at 13 (10 ∷ 13 ∷ 10 ∷ []) l rest h.0.plain
cut-end_of_header l (k ∷ ks) rest h =
    ap (cut end_of_header) (simp (append_assoc))
    ∙ cut-append 13 (10 ∷ 13 ∷ 10 ∷ []) l (nl ++ (k ++ (nl ++ (render ks ++ (nl ++ rest)))))
        h.0.plain
    ∙ ap (prepend l) (
        skip_end k (nl ++ (render ks ++ (nl ++ rest))) h.1.0
        ∙ ap (λ (t : Bytes). prepend nl (cut end_of_header t)) (simp (append_assoc))
        ∙ ap (prepend nl) (cut-end_of_header k ks rest h.1))
    ∙ prepend-some l (nl ++ body k ks) rest
