-- ===== src/Python/Text.antt =====
-- Texts by their code points, and the tests of str on them.
pub mod Slices
use optimaler_status.Base.{
  ℕ, zero, suc, Bool, true, false, ◌||◌, ◌&&◌, not, List, [], ◌∷◌, ◌++◌, leb, ◌==◌, if◌then◌else◌,
}

abbrev pub Text : Type 0
Text = List ℕ

abbrev pub is_empty {ℓ} : {A : Type ℓ} → List A → Bool
is_empty [] = true
is_empty (x ∷ xs) = false

-- text[n:] and text[:n]
unfoldable pub drop : ℕ → Text → Text
drop zero text = text
drop (suc n) [] = []
drop (suc n) (c ∷ text) = drop n text

unfoldable pub take : ℕ → Text → Text
take zero text = []
take (suc n) [] = []
take (suc n) (c ∷ text) = c ∷ take n text

-- The code points at which str.splitlines() ends a line.
abbrev pub is_boundary : ℕ → Bool
is_boundary c =
    (leb 10 c && leb c 13) || (leb 28 c && leb c 30) || (c == 133) || (c == 8232) || (c == 8233)

-- str.isspace() of a code point: those that str.strip() removes.
unfoldable pub is_space : ℕ → Bool
is_space c =
    is_boundary c
    || (c == 9)
    || (c == 31)
    || (c == 32)
    || (c == 160)
    || (c == 5760)
    || (leb 8192 c && leb c 8202)
    || (c == 8239)
    || (c == 8287)
    || (c == 12288)

-- The text from its first code point on that is no space.
unfoldable pub left_strip : Text → Text
unfolding is_space
left_strip [] = []
left_strip (c ∷ text) = if is_space c then left_strip text else c ∷ text

-- A code point before a stripped rest.
abbrev before_stripped : ℕ → Text → Text
before_stripped c [] = if is_space c then [] else c ∷ []
before_stripped c (d ∷ rest) = c ∷ d ∷ rest

-- The text up to its last code point that is no space.
unfoldable pub right_strip : Text → Text
unfolding is_space
right_strip [] = []
right_strip (c ∷ text) = before_stripped c (right_strip text)

-- str.strip()
unfoldable pub strip : Text → Text
unfolding left_strip right_strip
strip text = right_strip (left_strip text)

-- The words that text.split() finds, behind what is read of the first one.
unfoldable pub words_after : Text → Text → List Text
unfolding is_space
words_after word [] = if is_empty word then [] else word ∷ []
words_after word (c ∷ text) =
    let ended = words_after [] text in
    let longer = words_after (word ++ c ∷ []) text in
    if is_space c then (if is_empty word then ended else word ∷ ended) else longer

-- text.split()
unfoldable pub words : Text → List Text
unfolding words_after
words text = words_after [] text

-- separator.join(texts)
unfoldable pub join : Text → List Text → Text
join separator [] = []
join separator (text ∷ []) = text
join separator (text ∷ next ∷ texts) = text ++ separator ++ join separator (next ∷ texts)

-- a == b
unfoldable pub text_eq : Text → Text → Bool
text_eq [] [] = true
text_eq [] (d ∷ b) = false
text_eq (c ∷ a) [] = false
text_eq (c ∷ a) (d ∷ b) = (c == d) && text_eq a b

-- text.startswith(start)
unfoldable pub starts_with : Text → Text → Bool
starts_with [] text = true
starts_with (c ∷ start) [] = false
starts_with (c ∷ start) (d ∷ text) = (c == d) && starts_with start text

-- part in text
unfoldable pub is_part : Text → Text → Bool
unfolding starts_with
is_part part [] = starts_with part []
is_part part (c ∷ text) = starts_with part (c ∷ text) || is_part part text
