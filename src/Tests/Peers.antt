-- ===== src/Tests/Peers.antt =====
-- Runs of the peer list of src/spore_peer.rs.
use spore_peer.Prelude.{
  ◌≡◌, refl, [], ◌∷◌, ◌++◌, Bytes, All, ascii, none, some, true, false, ok, arith,
}
use spore_peer.Text.{is_utf8}
use spore_peer.Peers.Lines.{trim, lines, chars, trim_front, trim_back, is_whitespace}
use spore_peer.Integers.{parse_uint, digits_uint}
use spore_peer.Peers.Address.{validate_peer_addr, any_bad, rsplit_colon}
use spore_peer.Client.Push.{contains}
use spore_peer.Peers.File.{
  no_peers_faults, add_line, collect, peers_list, peers_text, peers_write, written, add_valid,
  peers_add, peers_remove, without,
}
use spore_peer.Peers.Laws.{IsPeer, IsDistinct, peers_list-peers_text}
use spore_peer.Peers.Valid.{IsAddress}
use spore_peer.Peers.Changes.{peers_add_ok}

abbrev alpha : Bytes
alpha = ascii "alpha:1"

abbrev beta : Bytes
beta = ascii "beta:2"

abbrev listed : Bytes
listed = peers_text (alpha ∷ [])

peers_list-listed : peers_list no_peers_faults (some listed) ≡ alpha ∷ []
peers_list-listed = peers_list-peers_text no_peers_faults (alpha ∷ []) refl (omega arith) (refl, tt)

alpha_IsPeer : All IsPeer (peers_list no_peers_faults (some listed))
alpha_IsPeer = rw peers_list-listed (omega arith)

alpha_IsDistinct : IsDistinct (peers_list no_peers_faults (some listed))
alpha_IsDistinct = rw peers_list-listed (refl, tt)

adding : (peers_add no_peers_faults (ascii "store") beta (some listed)).1 ≡ ok true
unfolding peers_add add_valid written peers_write validate_peer_addr any_bad rsplit_colon parse_uint
    digits_uint chars is_whitespace
adding = rw peers_list-listed refl

peers_add_ok_example :
    (peers_list no_peers_faults (peers_add no_peers_faults (ascii "store") beta (some listed)).0
      ≡ peers_list no_peers_faults (some listed) ++ (beta ∷ []))
    × (contains beta (peers_list no_peers_faults (some listed)) ≡ false)
    × IsAddress beta
peers_add_ok_example =
    peers_add_ok no_peers_faults (ascii "store") beta (some listed) refl alpha_IsPeer
      alpha_IsDistinct (omega arith) refl adding

removing : (peers_remove no_peers_faults (ascii "store") alpha (some listed)).1 ≡ ok true
unfolding peers_remove written peers_write without
removing = rw peers_list-listed refl

-- An address that begins with the mark of a comment is accepted, and not listed afterwards.
abbrev marked : Bytes
marked = ascii "#h:1"

marked_run :
    ((peers_add no_peers_faults (ascii "store") marked none).1 ≡ ok true)
    × (peers_list no_peers_faults (peers_add no_peers_faults (ascii "store") marked none).0 ≡ [])
unfolding peers_add add_valid written peers_write peers_text peers_list validate_peer_addr any_bad
    rsplit_colon parse_uint digits_uint collect add_line lines trim chars trim_front trim_back
    is_whitespace is_utf8
marked_run = (refl, refl)
