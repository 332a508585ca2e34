-- ===== src/Peers/Lines.antt =====
-- What `peers_list` and `validate_peer_addr` of src/spore_peer.rs use of texts: characters, white space,
-- `trim` and `lines`.
use spore_peer.Prelude.{ℕ, List, [], ◌∷◌, ◌++◌, Bool, false, ◌&&◌, ◌||◌, Bytes, ◌==◌, if◌then◌else◌}
use spore_peer.Text.{within, is_cont}

-- Whether the group continues a character.
abbrev pub is_tail : Bytes → Bool
is_tail [] = false
is_tail (b ∷ s) = is_cont b

abbrev pub attach : ℕ → List Bytes → List Bytes
attach b [] = (b ∷ []) ∷ []
attach b (g ∷ gs) = if is_tail g then (b ∷ g) ∷ gs else (b ∷ []) ∷ g ∷ gs

-- `s.chars()`, each as its bytes.
unfoldable pub chars : Bytes → List Bytes
chars [] = []
chars (b ∷ s) = attach b (chars s)

abbrev pub concat : List Bytes → Bytes
concat [] = []
concat (g ∷ gs) = g ++ concat gs

-- `char::is_whitespace`: the code points with the property White_Space.
unfoldable pub is_whitespace : Bytes → Bool
is_whitespace (c ∷ []) = within 9 13 c || c == b' '
is_whitespace (a ∷ b ∷ []) = a == 0xc2 && (b == 0x85 || b == 0xa0)
is_whitespace (a ∷ b ∷ c ∷ []) =
    (a == 0xe1 && b == 0x9a && c == 0x80)
    || (a == 0xe2 && b == 0x80 && (within 0x80 0x8a c || c == 0xa8 || c == 0xa9 || c == 0xaf))
    || (a == 0xe2 && b == 0x81 && c == 0x9f)
    || (a == 0xe3 && b == 0x80 && c == 0x80)
is_whitespace _ = false

unfoldable pub trim_front : List Bytes → List Bytes
trim_front [] = []
trim_front (g ∷ gs) = let rest = trim_front gs in if is_whitespace g then rest else g ∷ gs

abbrev pub keep_back : Bytes → List Bytes → List Bytes
keep_back g [] = if is_whitespace g then [] else g ∷ []
keep_back g (h ∷ hs) = g ∷ h ∷ hs

unfoldable pub trim_back : List Bytes → List Bytes
trim_back [] = []
trim_back (g ∷ gs) = keep_back g (trim_back gs)

-- `s.trim()`
unfoldable pub trim : Bytes → Bytes
unfolding chars trim_front trim_back
trim s = concat (trim_back (trim_front (chars s)))

abbrev pub at_newline : Bytes → Bool
at_newline [] = false
at_newline (c ∷ s) = c == b'\n'

abbrev pub onto_first : ℕ → List Bytes → List Bytes
onto_first c [] = (c ∷ []) ∷ []
onto_first c (l ∷ ls) = (c ∷ l) ∷ ls

-- `s.lines()`: without the ends of the lines, \n or \r\n; an end at the end of the text begins no line.
unfoldable pub lines : Bytes → List Bytes
lines [] = []
lines (c ∷ s) =
    let rest = lines s in
    if c == b'\n'
    then [] ∷ rest
    else (if c == b'\r' && at_newline s then rest else onto_first c rest)
