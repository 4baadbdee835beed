-- ===== src/WebSocket/Http/Trimming.antt =====
-- Removing blanks at the ends of a text.
use incubator.Prelude.{◌≡◌, refl, ap, Bool, true, not, ◌&&◌, [], ◌∷◌, arith}
use incubator.Bytes.{Bytes}
use incubator.WebSocket.Http.{is_space, drop_back, unless_blank, trim, trim_blanks}

-- No byte of the text counts as white space.
abbrev pub is_solid : Bytes → Bool
is_solid [] = true
is_solid (c ∷ cs) = not (is_space c) && is_solid cs

drop_back_solid : (bs : Bytes) → is_solid bs ≡ true → drop_back bs ≡ bs
drop_back_solid [] h = refl
drop_back_solid (c ∷ []) h = ground arith
drop_back_solid (c ∷ d ∷ ds) h = ap (unless_blank c) (drop_back_solid (d ∷ ds) (ground arith))

pub trim_blanks_solid : (bs : Bytes) → is_solid bs ≡ true → trim_blanks (32 ∷ bs) ≡ bs
unfolding trim_blanks
trim_blanks_solid [] h = refl
trim_blanks_solid (c ∷ cs) h = ground (arith, drop_back_solid (c ∷ cs))

pub trim_solid : (bs : Bytes) → is_solid bs ≡ true → trim (32 ∷ bs) ≡ bs
unfolding trim
trim_solid [] h = refl
trim_solid (c ∷ cs) h = ground (arith, trim_blanks_solid (c ∷ cs) h)

pub trim_blanks_word : (bs : Bytes) → is_solid bs ≡ true → trim_blanks bs ≡ bs
unfolding trim_blanks
trim_blanks_word [] h = refl
trim_blanks_word (c ∷ cs) h = ground (arith, drop_back_solid (c ∷ cs))
