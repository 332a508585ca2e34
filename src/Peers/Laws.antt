-- ===== src/Peers/Laws.antt =====
-- The list of peers of src/spore_peer.rs, written and read back.
use spore_peer.Prelude.{
  ℕ, ◌<◌, ◌≡◌, ◌≢◌, ◌⊎◌, leb, leb→gt, refl, sym, ap, ◌∙◌, List, [], ◌∷◌, ◌++◌, append-nil,
  append_assoc, true, false, some, Bool-cases, inl, inr, Bytes, All, ==_iff, same_bytes,
  same_bytes_iff, same_bytes_refl, arith,
}
use spore_peer.Text.{is_utf8}
use spore_peer.Client.Push.{contains}
use spore_peer.Peers.Lines.{chars, concat, is_whitespace, trim_front, trim_back, trim, lines}
use spore_peer.Peers.File.{
  PeersFaults, is_comment, add_line, collect, peers_list, header_line, peer_lines, peers_text,
}

-- An ASCII character that is no white space.
abbrev pub IsVisible : ℕ → Type 0
IsVisible b = (b < 128) × (b ≢ b' ') × ((b < 9) ⊎ (13 < b))

-- A line that is neither blank nor a comment, of ASCII without white space.
abbrev pub IsPeer : Bytes → Type 0
IsPeer [] = ⊥
IsPeer (c ∷ s) = (c ≢ b'#') × IsVisible c × All IsVisible s

-- No two are the same.
abbrev pub IsDistinct : List Bytes → Type 0
IsDistinct [] = Unit
IsDistinct (p ∷ ps) = (contains p ps ≡ false) × IsDistinct ps

visible-ascii : (s : Bytes) → All IsVisible s → All (λ b. b < 128) s
visible-ascii [] h = tt
visible-ascii (b ∷ s) (hb, hs) = (hb.0, visible-ascii s hs)

abbrev pub single : Bytes → List Bytes
single [] = []
single (b ∷ s) = (b ∷ []) ∷ single s

pub chars_ascii : (s : Bytes) → All (λ b. b < 128) s → chars s ≡ single s
unfolding chars
chars_ascii [] h = refl
chars_ascii (b ∷ []) h = refl
chars_ascii (b ∷ c ∷ s) (hb, (hc, hs)) = rw (chars_ascii (c ∷ s) (hc, hs)) (ground (arith, hc))

visible_blank : (b : ℕ) → IsVisible b → is_whitespace (b ∷ []) ≡ false
unfolding is_whitespace
visible_blank b h = ground (arith, h)

pub blank-IsVisible : (b : ℕ) → b < 128 → is_whitespace (b ∷ []) ≡ false → IsVisible b
unfolding is_whitespace
blank-IsVisible b small h = elim (Bool-cases (leb 9 b)) [
  | inl low ↦ (small, ground (arith, h), inr (ground (arith, h, low)))
  | inr low ↦ (small, ground (arith, h), inl (leb→gt _ _ low))
]

trim_back-single : (s : Bytes) → All IsVisible s → trim_back (single s) ≡ single s
unfolding trim_back
trim_back-single [] h = refl
trim_back-single (b ∷ []) (hb, hs) = rw (visible_blank b hb) refl
trim_back-single (b ∷ c ∷ s) (hb, hs) = rw (trim_back-single (c ∷ s) hs) refl

concat-single : (s : Bytes) → concat (single s) ≡ s
concat-single [] = refl
concat-single (b ∷ s) = ap (λ x. b ∷ x) (concat-single s)

trim_visible : (s : Bytes) → All IsVisible s → trim s ≡ s
unfolding trim trim_front
trim_visible [] h = refl
trim_visible (b ∷ s) (hb, hs) =
    rw
      (
        chars_ascii (b ∷ s) (visible-ascii (b ∷ s) (hb, hs)),
        visible_blank b hb,
        trim_back-single (b ∷ s) (hb, hs),
      )
      (concat-single (b ∷ s))

-- A text without the ends of lines is one line of what begins with it.
abbrev IsLine : Bytes → Type 0
IsLine s = All (λ b. (b ≢ b'\n') × (b ≢ b'\r')) s

lines-line : (s rest : Bytes) → IsLine s → lines (s ++ (b'\n' ∷ rest)) ≡ s ∷ lines rest
unfolding lines
lines-line [] rest h = refl
lines-line (b ∷ s) rest ((n, r), hs) =
    ground (arith, lines-line s rest hs, n, r, ==_iff b b'\n', ==_iff b b'\r')

newline_free : (b : ℕ) → IsVisible b → (b ≢ b'\n') × (b ≢ b'\r')
newline_free b (small, blank, inl low) =
    (λ e. absurd (omega (arith, e, low)), λ e. absurd (omega (arith, e, low)))
newline_free b (small, blank, inr high) =
    (λ e. absurd (omega (arith, e, high)), λ e. absurd (omega (arith, e, high)))

visible-IsLine : (s : Bytes) → All IsVisible s → IsLine s
visible-IsLine [] h = tt
visible-IsLine (b ∷ s) (hb, hs) = ((newline_free b hb), visible-IsLine s hs)

peer-IsVisible : (p : Bytes) → IsPeer p → All IsVisible p
peer-IsVisible [] h = absurd h
peer-IsVisible (c ∷ s) (n, hc, hs) = (hc, hs)

peer-comment : (p : Bytes) → IsPeer p → is_comment p ≡ false
peer-comment [] h = absurd h
peer-comment (c ∷ s) (n, hc, hs) = ground (arith, n, ==_iff c b'#')

lines-peer_lines : (ps : List Bytes) → All IsPeer ps → lines (peer_lines ps) ≡ ps
lines-peer_lines [] h = unfold lines in refl
lines-peer_lines (p ∷ ps) (hp, hs) =
    lines-line p (peer_lines ps) (visible-IsLine p (peer-IsVisible p hp))
    ∙ ap (λ x. p ∷ x) (lines-peer_lines ps hs)

-- None of the peers stands in the list.
abbrev pub IsFresh : List Bytes → List Bytes → Type 0
IsFresh out ps = All (λ p. contains p out ≡ false) ps

nil-IsFresh : (ps : List Bytes) → IsFresh [] ps
nil-IsFresh [] = tt
nil-IsFresh (p ∷ ps) = (refl, nil-IsFresh ps)

pub contains-snoc :
    (q p : Bytes) (out : List Bytes)
    → contains q out ≡ false
    → q ≢ p
    → contains q (out ++ (p ∷ [])) ≡ false
contains-snoc q p [] h ne = ground (arith, ne, same_bytes_iff p q)
contains-snoc q p (x ∷ out) h ne = ground (arith, h, contains-snoc q p out)

pub snoc-IsFresh :
    (p : Bytes) (out ps : List Bytes)
    → IsFresh out ps
    → contains p ps ≡ false
    → IsFresh (out ++ (p ∷ [])) ps
snoc-IsFresh p out [] f n = tt
snoc-IsFresh p out (q ∷ ps) (fq, fs) n = elim (Bool-cases (same_bytes q p)) [
  | inl y ↦ cc (rw y at n)
  | inr y ↦ (
    contains-snoc q p out fq (λ e. cc (rw (e, same_bytes_refl p) at y)),
    snoc-IsFresh p out ps fs (rw y at n),
  )
]

collect-peers :
    (out ps : List Bytes)
    → All IsPeer ps
    → IsDistinct ps
    → IsFresh out ps
    → collect out ps ≡ out ++ ps
unfolding collect
collect-peers out [] h d f = sym (append-nil out)
collect-peers out (p ∷ ps) (hp, hs) (dp, ds) (fp, fs) =
    let kept : add_line out p ≡ out ++ (p ∷ []) =
      unfold add_line in rw (trim_visible p (peer-IsVisible p hp), peer-comment p hp, fp) refl in
    rw kept (
      collect-peers (out ++ (p ∷ [])) ps hs ds (snoc-IsFresh p out ps fs dp)
      ∙ append_assoc out (p ∷ []) ps)

ascii-utf8 : (s : Bytes) → All (λ b. b < 128) s → is_utf8 s ≡ true
unfolding is_utf8
ascii-utf8 [] h = refl
ascii-utf8 (a ∷ []) h = ground (arith, h)
ascii-utf8 (a ∷ b ∷ []) (ha, hs) = ground (arith, ha, ascii-utf8 (b ∷ []) hs)
ascii-utf8 (a ∷ b ∷ c ∷ []) (ha, hs) = ground (arith, ha, ascii-utf8 (b ∷ c ∷ []) hs)
ascii-utf8 (a ∷ b ∷ c ∷ d ∷ s) (ha, hs) = ground (arith, ha, ascii-utf8 (b ∷ c ∷ d ∷ s) hs)

append-ascii :
    (s t : Bytes) → All (λ b. b < 128) s → All (λ b. b < 128) t → All (λ b. b < 128) (s ++ t)
append-ascii [] t hs ht = ht
append-ascii (b ∷ s) t (hb, hs) ht = (hb, append-ascii s t hs ht)

peer_lines-ascii : (ps : List Bytes) → All IsPeer ps → All (λ b. b < 128) (peer_lines ps)
peer_lines-ascii [] h = tt
peer_lines-ascii (p ∷ ps) (hp, hs) =
    append-ascii p _ (visible-ascii p (peer-IsVisible p hp)) (omega arith, peer_lines-ascii ps hs)

header_comment : is_comment (trim header_line) ≡ true
unfolding trim chars trim_front trim_back is_whitespace
header_comment = refl

-- A list that is written reads back as it is: the same peers in the same order. The peers are
-- distinct, of ASCII without white space, and none begins with the mark of a comment.
pub peers_list-peers_text :
    (f : PeersFaults) (ps : List Bytes)
    → f.reads ≡ true
    → All IsPeer ps
    → IsDistinct ps
    → peers_list f (some (peers_text ps)) ≡ ps
unfolding peers_list peers_text
peers_list-peers_text f ps r h d =
    let utf8 : is_utf8 (header_line ++ (b'\n' ∷ peer_lines ps)) ≡ true =
      ascii-utf8 (header_line ++ (b'\n' ∷ peer_lines ps)) (
        append-ascii header_line (b'\n' ∷ peer_lines ps) (omega arith)
          (omega arith, peer_lines-ascii ps h)) in
    let split : lines (header_line ++ (b'\n' ∷ peer_lines ps)) ≡ header_line ∷ ps =
      lines-line header_line (peer_lines ps) (omega arith)
      ∙ ap (λ x. header_line ∷ x) (lines-peer_lines ps h) in
    rw (r, utf8, split)
      (unfold collect add_line in rw header_comment (collect-peers [] ps h d (nil-IsFresh ps)))
