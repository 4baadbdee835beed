-- ===== src/WebSocket/Handshake/Header.antt =====
-- handshake::split_http_1_header on a header of lines, and on one that is cut short.
use incubator.Prelude.{
  ℕ, ◌+◌, ◌≡◌, refl, ap, ap₂, sym, ◌∙◌, true, false, List, [], ◌∷◌, ◌++◌, append-nil, append_assoc,
  All, if◌then◌else◌, length, length-append, take, drop, take_prefix, drop_prefix,
}
use incubator.Bytes.{Bytes}
use incubator.WebSocket.Http.{nl, end_of_header, is_empty, cut, for_each_http_line}
use incubator.WebSocket.Http.Cuts.{lacks, cut_short}
use incubator.WebSocket.Http.Lines.{
  AreLines, render, body, body-append_end, cut-end_of_header, fold_lines, for_each-header,
}
use incubator.WebSocket.Handshake.{split_http_1_header}

module _ (l : Bytes) (ls : List Bytes) (rest : Bytes) (h : AreLines (l ∷ ls)) where
  split_size : length (render (l ∷ ls) ++ nl) ≡ length (body l ls) + 4
  split_size =
      ap (length {A = ℕ}) (sym (body-append_end l ls)) ∙ length-append {0} (body l ls) end_of_header

  -- The header with the empty line behind it is split off whatever follows.
  pub split_http_1_header-render :
      split_http_1_header (render (l ∷ ls) ++ (nl ++ rest)) ≡ (render (l ∷ ls) ++ nl, rest)
  unfolding split_http_1_header
  split_http_1_header-render = rw (cut-end_of_header l ls rest h) (
      ap₂ (λ (a b : Bytes). (a, b))
        (ap (take (length (body l ls) + 4)) (sym (append_assoc (render (l ∷ ls)) nl rest))
          ∙ take_prefix (render (l ∷ ls) ++ nl) rest (length (body l ls) + 4) split_size)
        (ap (drop (length (body l ls) + 4)) (sym (append_assoc (render (l ∷ ls)) nl rest))
          ∙ drop_prefix (render (l ∷ ls) ++ nl) rest (length (body l ls) + 4) split_size))

-- A part of a header that is short of its end has no header in it.
pub split_http_1_header_short :
    (l : Bytes) (ls : List Bytes) (part missing : Bytes)
    → AreLines (l ∷ ls)
    → part ++ missing ≡ render (l ∷ ls) ++ nl
    → is_empty missing ≡ false
    → split_http_1_header part ≡ ([], part)
unfolding split_http_1_header
split_http_1_header_short l ls part missing h e filled =
    rw
      (cut_short end_of_header part missing (body l ls)
        (ap (cut end_of_header) (e ∙ ap (◌++◌ (render (l ∷ ls))) (sym (append-nil nl)))
          ∙ cut-end_of_header l ls [] h)
        filled)
      refl

-- The callback with the test of for_each_http_line.
abbrev pub unless_empty : {S : Type 0} → (Bytes → S → S) → Bytes → S → S
unless_empty f line s = if is_empty line then s else f line s

-- The callback is called with each line of the header, in order.
pub for_each_http_line-render :
    {S : Type 0} (f : Bytes → S → S) (ls : List Bytes) (s : S)
    → All (λ l. lacks 13 l ≡ true) (ls ++ ([] ∷ []))
    → for_each_http_line f (render ls ++ nl) s ≡ fold_lines (unless_empty f) (ls ++ ([] ∷ [])) s
unfolding for_each_http_line
for_each_http_line-render f ls s h = for_each-header (unless_empty f) ls s h
