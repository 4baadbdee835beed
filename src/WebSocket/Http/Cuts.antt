-- ===== src/WebSocket/Http/Cuts.antt =====
-- Cutting a text at a separator.
use incubator.Prelude.{
  ℕ, ◌+◌, ◌≤◌, ◌≡◌, ◌≢◌, refl, ap, ◌∙◌, Bool, true, false, not, ◌&&◌, ◌==◌, Option, none, some, [],
  ◌∷◌, ◌++◌, append-nil, arith, length, drop, drop_prefix, length-append, Bool-cases, Option-cases,
  ◌⊎◌, inl, inr, length-drop, drop-append_le,
}
use incubator.Bytes.{Bytes}
use incubator.WebSocket.Http.{is_empty, starts_with, push_front, cut, split}

-- The byte does not occur in the text.
abbrev pub lacks : ℕ → Bytes → Bool
lacks p [] = true
lacks p (c ∷ cs) = not (c == p) && lacks p cs

pub lacks-append :
    (p : ℕ) (xs ys : Bytes) → lacks p xs ≡ true → lacks p ys ≡ true → lacks p (xs ++ ys) ≡ true
lacks-append p [] ys h k = k
lacks-append p (x ∷ xs) ys h k = ground (arith, lacks-append p xs ys)

-- What stands in front of a text that is cut.
abbrev pub prepend : Bytes → Option (Bytes × Bytes) → Option (Bytes × Bytes)
prepend [] o = o
prepend (c ∷ cs) o = push_front c (prepend cs o)

pub prepend-some : (xs head tail : Bytes) → prepend xs (some (head, tail)) ≡ some (xs ++ head, tail)
prepend-some [] head tail = refl
prepend-some (x ∷ xs) head tail = ap (push_front x) (prepend-some xs head tail)

pub starts_with-append : (xs ys : Bytes) → starts_with (xs ++ ys) xs ≡ true
starts_with-append [] [] = refl
starts_with-append [] (y ∷ ys) = refl
starts_with-append (x ∷ xs) ys = ground (arith, starts_with-append xs ys)

module _ (p : ℕ) (ps : Bytes) where
  pub cut-append :
      (line more : Bytes)
      → lacks p line ≡ true
      → cut (p ∷ ps) (line ++ more) ≡ prepend line (cut (p ∷ ps) more)
  unfolding cut
  cut-append [] more h = refl
  cut-append (c ∷ cs) more h = ground (arith, cut-append cs more)

  pub cut_here : (rest : Bytes) → cut (p ∷ ps) ((p ∷ ps) ++ rest) ≡ some ([], rest)
  unfolding cut
  cut_here rest =
      rw (starts_with-append (p ∷ ps) rest)
        (ap (λ (t : Bytes). some ([], t)) (drop_prefix ps rest (length ps) refl))

  -- A text is cut at the first occurrence of the separator.
  pub cut_at :
      (line rest : Bytes)
      → lacks p line ≡ true
      → cut (p ∷ ps) (line ++ ((p ∷ ps) ++ rest)) ≡ some (line, rest)
  cut_at line rest h =
      cut-append line ((p ∷ ps) ++ rest) h
      ∙ ap (prepend line) (cut_here rest)
      ∙ prepend-some line [] rest
      ∙ ap (λ (t : Bytes). some (t, rest)) (append-nil line)

  pub cut_nowhere : (line : Bytes) → lacks p line ≡ true → cut (p ∷ ps) line ≡ none
  unfolding cut
  cut_nowhere [] h = refl
  cut_nowhere (c ∷ cs) h = ground (arith, cut_nowhere cs)

  pub split_at :
      (line rest : Bytes)
      → lacks p line ≡ true
      → split (line ++ ((p ∷ ps) ++ rest)) (p ∷ ps) ≡ (line, rest)
  unfolding split
  split_at line rest h = rw (cut_at line rest h)

cut_nil : (sep head tail : Bytes) → cut sep [] ≢ some (head, tail)
unfolding cut
cut_nil sep head tail h = cc

starts_with_nil : (ys : Bytes) → starts_with ys [] ≡ true
starts_with_nil [] = refl
starts_with_nil (y ∷ ys) = refl

starts_with-append_le :
    (xs ys sep : Bytes) → length sep ≤ length xs → starts_with (xs ++ ys) sep ≡ starts_with xs sep
starts_with-append_le [] ys [] h = starts_with_nil ys
starts_with-append_le [] ys (p ∷ ps) h = absurd (omega arith)
starts_with-append_le (x ∷ xs) ys [] h = refl
starts_with-append_le (x ∷ xs) ys (p ∷ ps) h =
    ap (◌&&◌ (x == p)) (starts_with-append_le xs ys ps (omega arith))

starts_with-le : (xs sep : Bytes) → starts_with xs sep ≡ true → length sep ≤ length xs
starts_with-le xs [] h = omega arith
starts_with-le [] (p ∷ ps) h = absurd (cc)
starts_with-le (x ∷ xs) (p ∷ ps) h = ground (arith, starts_with-le xs ps)

push_front-some :
    (c : ℕ) (o : Option (Bytes × Bytes)) (head tail : Bytes)
    → push_front c o ≡ some (head, tail)
    → (head' : Bytes) × (o ≡ some (head', tail)) × (head ≡ c ∷ head')
push_front-some c none head tail h = absurd (cc)
push_front-some c (some (head', tail')) head tail h = (head', cc, cc)

abbrev Found : Bytes → ℕ → Bytes → Bytes → Bytes → Type 0
Found sep c cs head tail =
    ((starts_with (c ∷ cs) sep ≡ true) × (head ≡ []) × (tail ≡ drop (length sep) (c ∷ cs)))
    ⊎ ((starts_with (c ∷ cs) sep ≡ false)
        × ((head' : Bytes) × (cut sep cs ≡ some (head', tail)) × (head ≡ c ∷ head')))

cut-Found :
    (sep : Bytes) (c : ℕ) (cs head tail : Bytes)
    → cut sep (c ∷ cs) ≡ some (head, tail)
    → Found sep c cs head tail
unfolding cut
cut-Found sep c cs head tail h = elim (Bool-cases (starts_with (c ∷ cs) sep)) [
  | inl here ↦ let h' = rw here at h in inl (here, cc, cc)
  | inr later ↦ let h' = rw later at h in inr (later, push_front-some c (cut sep cs) head tail h')
]

starts_with-split : (xs sep : Bytes) → starts_with xs sep ≡ true → xs ≡ sep ++ drop (length sep) xs
starts_with-split xs [] h = refl
starts_with-split [] (p ∷ ps) h = absurd (cc)
starts_with-split (x ∷ xs) (p ∷ ps) h = ground (arith, starts_with-split xs ps)

-- The parts of a cut make up the text, with the separator between them.
pub cut_joined :
    (sep xs head tail : Bytes) → cut sep xs ≡ some (head, tail) → xs ≡ head ++ (sep ++ tail)
cut_joined sep [] head tail h = absurd (cut_nil sep head tail h)
cut_joined sep (c ∷ cs) head tail h = elim (cut-Found sep c cs head tail h) [
  | inl (here, eh, et) ↦ rw (eh, et) (starts_with-split (c ∷ cs) sep here)
  | inr (later, (head', e, eh)) ↦ rw eh (ap (◌∷◌ c) (cut_joined sep cs head' tail e))
]

-- What a cut leaves out is the separator.
pub cut_parts :
    (sep xs head tail : Bytes)
    → cut sep xs ≡ some (head, tail)
    → length xs ≡ length head + length sep + length tail
cut_parts sep [] head tail h = absurd (cut_nil sep head tail h)
cut_parts sep (c ∷ cs) head tail h = elim (cut-Found sep c cs head tail h) [
  | inl (here, eh, et) ↦
      rw (eh, et)
        (omega (arith, starts_with-le (c ∷ cs) sep here, length-drop {0} (length sep) (c ∷ cs)))
  | inr (later, (head', e, eh)) ↦ rw eh (omega (arith, cut_parts sep cs head' tail e))
]

-- What is found stays found when more follows.
pub cut_more :
    (sep xs ys head tail : Bytes)
    → cut sep xs ≡ some (head, tail)
    → cut sep (xs ++ ys) ≡ some (head, tail ++ ys)
unfolding cut
cut_more sep [] ys head tail h = absurd (cc)
cut_more sep (c ∷ cs) ys head tail h =
    let fits : length sep ≤ length (c ∷ cs) = omega (arith, cut_parts sep (c ∷ cs) head tail h) in
    elim (cut-Found sep c cs head tail h) [
      | inl (here, eh, et) ↦ rw (
        starts_with-append_le (c ∷ cs) ys sep fits,
        here,
        eh,
        et,
        drop-append_le (length sep) (c ∷ cs) ys fits,
      )
      | inr (later, (head', e, eh)) ↦
          rw
            (starts_with-append_le (c ∷ cs) ys sep fits, later, cut_more sep cs ys head' tail e, eh)
    ]

-- No header ends in what is short of its end.
pub cut_short :
    (sep xs ys head : Bytes)
    → cut sep (xs ++ ys) ≡ some (head, [])
    → is_empty ys ≡ false
    → cut sep xs ≡ none
cut_short sep xs [] head h filled = absurd (cc)
cut_short sep xs (y ∷ ys) head h filled = elim (Option-cases (cut sep xs)) [
  | inl e ↦ e
  | inr ((found, tail), e) ↦ absurd (
      let same : tail ++ (y ∷ ys) ≡ [] = cc (cut_more sep xs (y ∷ ys) found tail e) in
      omega (arith, length-append {0} tail (y ∷ ys), ap (length {A = ℕ}) same))
]

-- A part of a text without the byte is without it.
pub lacks_parts :
    (p : ℕ) (xs ys : Bytes) → lacks p (xs ++ ys) ≡ true → (lacks p xs ≡ true) × (lacks p ys ≡ true)
lacks_parts p [] ys h = (refl, h)
lacks_parts p (x ∷ xs) ys h = ground (arith, lacks_parts p xs ys)
