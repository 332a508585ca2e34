-- ===== src/Peers/Valid.antt =====
-- What `validate_peer_addr` of src/spore_peer.rs asks of an address in ASCII.
use spore_peer.Prelude.{
  ℕ, ◌+◌, ◌-◌, ◌*◌, ◌<◌, ◌≤◌, ◌≡◌, ◌≢◌, ◌⊎◌, refl, ap, ◌∙◌, [], ◌∷◌, ◌++◌, true, false, not, some,
  Bool-cases, Option-cases, inl, inr, Bytes, All, length, leb, leb→le, ltb, ltb→lt, ◌==◌, ==_iff,
  chain_ok, ok_or-eq-ok, guard-eq-ok, ok, guard, ok_or, arith,
}
use spore_peer.Text.{within}
use spore_peer.Integers.{digits_uint, parse_uint}
use spore_peer.Peers.Lines.{chars, is_whitespace}
use spore_peer.Peers.Address.{any_bad, rsplit_colon, parse_u16, validate_peer_addr}
use spore_peer.Peers.Laws.{IsVisible, single, chars_ascii, blank-IsVisible}

abbrev pub IsDigit : ℕ → Type 0
IsDigit c = (b'0' ≤ c) × (c ≤ b'9')

-- The number that digits spell behind those of `n`.
abbrev pub value : ℕ → Bytes → ℕ
value n [] = n
value n (c ∷ s) = value (10 * n + (c - b'0')) s

-- A port: digits, perhaps behind a plus sign, of a number from 1 to 65535.
pub record IsPort (text : Bytes) : Type 0 where
  pub digits : Bytes
  pub signed : (text ≡ digits) ⊎ (text ≡ b'+' ∷ digits)
  pub some_there : 0 < length digits
  pub are_digits : All IsDigit digits
  pub positive : 0 < value 0 digits
  pub fits : value 0 digits ≤ 65_535

-- `host:port`, with a host, and neither white space nor a slash of either kind.
pub record IsAddress (addr : Bytes) : Type 0 where
  pub host : Bytes
  pub port : Bytes
  pub split : addr ≡ host ++ (b':' ∷ port)
  pub host_there : 0 < length host
  pub visible : All IsVisible addr
  pub no_path : All (λ b. (b ≢ b'/') × (b ≢ b'\\')) addr
  pub is_port : IsPort port

rsplit_colon_ok :
    (s host port : Bytes) → rsplit_colon s ≡ some (host, port) → s ≡ host ++ (b':' ∷ port)
unfolding rsplit_colon
rsplit_colon_ok [] host port e = cc
rsplit_colon_ok (c ∷ s) host port e = elim (Option-cases (rsplit_colon s)) [
  | inr ((h, p), y) ↦
      let rest = rsplit_colon_ok s h p y in
      let found = rw (y, rsplit_colon) at e in ground (arith, rest, found)
  | inl y ↦ elim (Bool-cases (c == b':')) [
    | inl z ↦ let found = rw (y, z, rsplit_colon) at e in ground (arith, z, found)
    | inr z ↦ cc (rw (y, z, rsplit_colon) at e)
  ]
]

no_bad :
    (s : Bytes)
    → All (λ b. b < 128) s
    → any_bad (single s) ≡ false
    → All IsVisible s × All (λ b. (b ≢ b'/') × (b ≢ b'\\')) s
unfolding any_bad
no_bad [] v h = (tt, tt)
no_bad (b ∷ s) (vb, vs) h = elim (Bool-cases (any_bad (single s))) [
  | inl y ↦ ground (arith, y, h)
  | inr y ↦
      let (visible, no_path) = no_bad s vs y in
      let blank : is_whitespace (b ∷ []) ≡ false = ground (arith, h) in
      ((blank-IsVisible b vb blank, visible), (ground (arith, h), no_path))
]

digits_uint_ok :
    (top n m : ℕ) (s : Bytes)
    → n ≤ top
    → digits_uint top n s ≡ some m
    → All IsDigit s × (value n s ≡ m) × (m ≤ top)
unfolding digits_uint
digits_uint_ok top n m [] h e = (tt, ground (arith, e), ground (arith, e, h))
digits_uint_ok top n m (c ∷ s) h e = elim (Bool-cases (within b'0' b'9' c)) [
  | inr y ↦ cc (rw (y, digits_uint) at e)
  | inl y ↦ elim (Bool-cases (leb (n * 10 + (c - b'0')) top)) [
    | inr z ↦ cc (rw (y, z, digits_uint) at e)
    | inl z ↦
        let same : 10 * n + (c - b'0') ≡ n * 10 + (c - b'0') = omega arith in
        let (digits, number, fits) =
          digits_uint_ok top (n * 10 + (c - b'0')) m s (leb→le _ _ z)
            (rw (y, z, digits_uint) at e) in
        ((ground (arith, y), digits), ap (λ k. value k s) same ∙ number, fits)
  ]
]

parse_digits :
    (top m : ℕ) (c : ℕ) (s text : Bytes)
    → (text ≡ c ∷ s) ⊎ (text ≡ b'+' ∷ c ∷ s)
    → digits_uint top 0 (c ∷ s) ≡ some m
    → (not (m == 0)) ≡ true
    → top ≤ 65_535
    → IsPort text
parse_digits top m c s text signed e positive small =
    let (digits, number, fits) = digits_uint_ok top 0 m (c ∷ s) (omega arith) e in
    record {
      digits = c ∷ s;
      signed = signed;
      some_there = omega arith;
      are_digits = digits;
      positive = ground (arith, positive, number);
      fits = omega (arith, number, fits, small);
    }

parse_u16_ok : (s : Bytes) (m : ℕ) → parse_u16 s ≡ some m → (not (m == 0)) ≡ true → IsPort s
unfolding parse_uint
parse_u16_ok [] m e p = cc
parse_u16_ok (c ∷ []) m e p = parse_digits 65_535 m c [] (c ∷ []) (inl refl) e p (omega arith)
parse_u16_ok (c ∷ d ∷ s) m e p = elim (Bool-cases (c == b'+')) [
  | inl y ↦
      parse_digits 65_535 m d s (c ∷ d ∷ s) (inr (ap (λ x. x ∷ d ∷ s) ((==_iff c b'+').0 y)))
        (rw (y, parse_uint) at e) p (omega arith)
  | inr y ↦
      parse_digits 65_535 m c (d ∷ s) (c ∷ d ∷ s) (inl refl) (rw (y, parse_uint) at e) p
        (omega arith)
]

pub validate_peer_addr_ok :
    (addr : Bytes) → All (λ b. b < 128) addr → validate_peer_addr addr ≡ ok tt → IsAddress addr
unfolding validate_peer_addr
validate_peer_addr_ok addr v e =
    let (u, good, rest) = chain_ok (guard (not (any_bad (chars addr))) _) _ e in
    let ((host, port), found, rest') = chain_ok (ok_or (rsplit_colon addr) _) _ rest in
    let (w, there, rest'') = chain_ok (guard (ltb 0 (length host)) _) _ rest' in
    let (m, number, positive) = chain_ok (ok_or (parse_u16 port) _) _ rest'' in
    let plain : any_bad (single addr) ≡ false =
      rw (← chars_ascii addr v) (ground (arith, guard-eq-ok _ _ good)) in
    let (visible, no_path) = no_bad addr v plain in
    record {
      host = host;
      port = port;
      split = rsplit_colon_ok addr host port (ok_or-eq-ok _ _ found);
      host_there = ltb→lt _ _ (guard-eq-ok _ _ there);
      visible = visible;
      no_path = no_path;
      is_port = parse_u16_ok port m (ok_or-eq-ok _ _ number) (guard-eq-ok _ _ positive);
    }
