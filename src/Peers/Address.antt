-- ===== src/Peers/Address.antt =====
-- src/spore_peer.rs, `validate_peer_addr`.
use spore_peer.Prelude.{
  ℕ, List, [], ◌∷◌, ◌++◌, Bool, false, ◌||◌, not, Option, none, some, Bytes, ascii, length, ltb,
  ◌==◌, same_bytes, if◌then◌else◌, Result, guard, ok_or, ◌>>=◌, ◌>>◌,
}
use spore_peer.Integers.{parse_uint}
use spore_peer.Peers.Lines.{chars, is_whitespace}

-- `c.is_whitespace() || c == '/' || c == '\\'`
abbrev pub is_bad_char : Bytes → Bool
is_bad_char g = is_whitespace g || same_bytes g (b'/' ∷ []) || same_bytes g (b'\\' ∷ [])

unfoldable pub any_bad : List Bytes → Bool
any_bad [] = false
any_bad (g ∷ gs) = is_bad_char g || any_bad gs

-- `s.rsplit_once(':')`
unfoldable pub rsplit_colon : Bytes → Option (Bytes × Bytes)
rsplit_colon [] = none
rsplit_colon (c ∷ s) = elim (rsplit_colon s) [
  | some (host, port) ↦ some (c ∷ host, port)
  | none ↦ if c == b':' then some ([], s) else none
]

-- `s.parse::<u16>()`
abbrev pub parse_u16 : Bytes → Option ℕ
parse_u16 = parse_uint 65_535

abbrev pub about : Bytes → Bytes → Bytes
about addr what = ascii "peer '" ++ (addr ++ (ascii "': " ++ what))

unfoldable pub validate_peer_addr : Bytes → Result Bytes (Unit {0})
unfolding any_bad rsplit_colon parse_uint
validate_peer_addr addr = do
  guard (not (any_bad (chars addr)))
      (about addr (ascii "whitespace and path characters are not allowed"))
  split ← ok_or (rsplit_colon addr) (about addr (ascii "need host:port"))
  guard (ltb 0 (length split.0)) (about addr (ascii "empty host"))
  port ← ok_or (parse_u16 split.1) (about addr (ascii "port must be numeric (1-65535)"))
  guard (not (port == 0)) (about addr (ascii "port 0 is not connectable"))
