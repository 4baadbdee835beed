-- ===== src/WebSocket/Http.antt =====
-- The text helpers of src/net/web_socket/handshake.cpp and of caf/net/web_socket/server.hpp. A text
-- is the list of its bytes.
pub mod Cuts
pub mod Lines
pub mod Trimming
use Prim.Native.Char.{code}
use Prim.Native.String.{String}
use incubator.Prelude.{
  ℕ, zero, suc, ◌+◌, ◌-◌, Bool, true, false, not, ◌&&◌, ◌||◌, leb, ◌==◌, if◌then◌else◌, Option,
  none, some, List, [], ◌∷◌, ◌++◌, length, drop,
}
use incubator.Bytes.{Bytes}

abbrev pub text : String → Bytes
text String.[] = []
text (String.◌∷◌ c s) = code c ∷ text s

-- "\r\n"
abbrev pub nl : Bytes
nl = 13 ∷ 10 ∷ []

-- "\r\n\r\n"
abbrev pub end_of_header : Bytes
end_of_header = 13 ∷ 10 ∷ 13 ∷ 10 ∷ []

abbrev pub is_empty : Bytes → Bool
is_empty [] = true
is_empty (b ∷ bs) = false

-- `x == y` on two texts.
abbrev pub same_text : Bytes → Bytes → Bool
same_text [] [] = true
same_text [] (y ∷ ys) = false
same_text (x ∷ xs) [] = false
same_text (x ∷ xs) (y ∷ ys) = x == y && same_text xs ys

-- starts_with(str, prefix)
abbrev pub starts_with : Bytes → Bytes → Bool
starts_with str [] = true
starts_with [] (p ∷ ps) = false
starts_with (c ∷ cs) (p ∷ ps) = c == p && starts_with cs ps

abbrev pub push_front : ℕ → Option (Bytes × Bytes) → Option (Bytes × Bytes)
push_front c none = none
push_front c (some (head, tail)) = some (c ∷ head, tail)

-- `std::search` for a separator that is not empty: what stands before its first occurrence, and
-- what stands behind it.
unfoldable pub cut : Bytes → Bytes → Option (Bytes × Bytes)
cut sep [] = none
cut sep (c ∷ cs) =
    if starts_with (c ∷ cs) sep
    then some ([], drop (length sep) (c ∷ cs))
    else push_front c (cut sep cs)

abbrev cut_or : Bytes → Option (Bytes × Bytes) → Bytes × Bytes
cut_or str none = (str, [])
cut_or str (some p) = p

unfoldable pub split : Bytes → Bytes → Bytes × Bytes
unfolding cut
split str sep = cut_or str (cut sep str)

abbrev then_split : Bytes → Bytes × Bytes → Bytes × Bytes × Bytes
then_split sep (first, r1) = let (second, third) = split r1 sep in (first, second, third)

unfoldable pub split2 : Bytes → Bytes → Bytes × Bytes × Bytes
unfolding split
split2 str sep = then_split sep (split str sep)

abbrev drop_front : Bytes → Bytes
drop_front [] = []
drop_front (c ∷ cs) = if c == b' ' then drop_front cs else c ∷ cs

abbrev unless_blank : ℕ → Bytes → Bytes
unless_blank c [] = if c == b' ' then [] else c ∷ []
unless_blank c (d ∷ ds) = c ∷ d ∷ ds

abbrev drop_back : Bytes → Bytes
drop_back [] = []
drop_back (c ∷ cs) = unless_blank c (drop_back cs)

-- server::trim: the blanks at both ends are removed.
unfoldable pub trim_blanks : Bytes → Bytes
trim_blanks str = drop_back (drop_front str)

-- isspace in the "C" locale
abbrev is_space : ℕ → Bool
is_space c = c == b' ' || (leb 9 c && leb c 13)

abbrev any_non_whitespace : Bytes → Bool
any_non_whitespace [] = false
any_non_whitespace (c ∷ cs) = not (is_space c) || any_non_whitespace cs

-- The function trim of handshake.cpp. Its two loops end, since some character is not a blank.
unfoldable pub trim : Bytes → Bytes
unfolding trim_blanks
trim str = if any_non_whitespace str then trim_blanks str else []

-- tolower in the "C" locale
abbrev to_lower : ℕ → ℕ
to_lower c = if leb b'A' c && leb c b'Z' then c + 32 else c

unfoldable pub lowercase_equal : Bytes → Bytes → Bool
lowercase_equal [] [] = true
lowercase_equal [] (y ∷ ys) = false
lowercase_equal (x ∷ xs) [] = false
lowercase_equal (x ∷ xs) (y ∷ ys) = to_lower x == to_lower y && lowercase_equal xs ys

-- for_each_http_line, with what the callback changes as a state. Each turn takes two bytes or more.
pub for_each_line : {S : Type 0} → (Bytes → S → S) → ℕ → Bytes → S → S
unfolding cut
for_each_line f zero lines s = s
for_each_line f (suc fuel) lines s = elim (cut nl lines) [
  | none ↦ s
  | some (line, rest) ↦ for_each_line f fuel rest (f line s)
]

unfoldable pub for_each_http_line : {S : Type 0} → (Bytes → S → S) → Bytes → S → S
unfolding for_each_line
for_each_http_line f lines s =
    for_each_line (λ line s'. if is_empty line then s' else f line s') (suc (length lines)) lines s
