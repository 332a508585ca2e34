-- ===== src/Peers/File.antt =====
-- src/spore_peer.rs, `peers_list`, `peers_write`, `peers_add` and `peers_remove`.
use spore_peer.Prelude.{
  List, [], ◌∷◌, ◌++◌, Bool, true, false, ◌||◌, Option, none, some, Bytes, ascii, length, ◌==◌,
  same_bytes, if◌then◌else◌, Result, ok, err, panic,
}
use spore_peer.Text.{is_utf8}
use spore_peer.Peers.Lines.{trim, lines}
use spore_peer.Peers.Address.{validate_peer_addr}
use spore_peer.Client.Push.{contains}

-- What the file system refuses during one call; a write that fails may leave some bytes.
pub record PeersFaults : Type 0 where
  pub reads : Bool
  pub create_dir : Option Bytes
  pub write : Option (Option Bytes × Bytes)

abbrev pub no_peers_faults : PeersFaults
no_peers_faults = record { reads = true; create_dir = none; write = none }

abbrev pub is_comment : Bytes → Bool
is_comment [] = true
is_comment (c ∷ s) = c == b'#'

-- One turn of the loop: a blank line, a comment and a known peer are passed over.
unfoldable pub add_line : List Bytes → Bytes → List Bytes
add_line out line =
    if is_comment (trim line) || contains (trim line) out then out else out ++ (trim line ∷ [])

unfoldable pub collect : List Bytes → List Bytes → List Bytes
unfolding add_line
collect out [] = out
collect out (line ∷ ls) = collect (add_line out line) ls

-- The text of peers.txt, if it is there. A text that is not UTF-8 is not read.
unfoldable pub peers_list : PeersFaults → Option Bytes → List Bytes
unfolding collect
peers_list f none = []
peers_list f (some text) =
    if f.reads then (if is_utf8 text then collect [] (lines text) else []) else []

abbrev pub header_line : Bytes
header_line = ascii "# spore-peer peers list: one host:port per line"

abbrev pub peer_lines : List Bytes → Bytes
peer_lines [] = []
peer_lines (p ∷ ps) = p ++ (b'\n' ∷ peer_lines ps)

unfoldable pub peers_text : List Bytes → Bytes
peers_text list = header_line ++ (b'\n' ∷ peer_lines list)

-- The file and the result, with the directory's path for the error's text.
unfoldable pub peers_write :
    PeersFaults → Bytes → List Bytes → Option Bytes → Option Bytes × Result Bytes (Unit {0})
unfolding peers_text
peers_write f dir list file = elim f.create_dir [
  | some e ↦ (file, err (ascii "dir " ++ (dir ++ (ascii ": " ++ e))))
  | none ↦ elim f.write [
    | some (none, e) ↦ (file, err e)
    | some (some left, e) ↦ (some left, err e)
    | none ↦ (some (peers_text list), ok tt)
  ]
]

-- `?; Ok(true)`
unfoldable pub written : Option Bytes × Result Bytes (Unit {0}) → Option Bytes × Result Bytes Bool
written (file, ok u) = (file, ok true)
written (file, err e) = (file, err e)
written (file, panic) = (file, panic)

unfoldable pub add_valid :
    PeersFaults
    → Bytes
    → Bytes
    → Option Bytes
    → Result Bytes (Unit {0})
    → Option Bytes × Result Bytes Bool
unfolding peers_list peers_write written
add_valid f dir addr file (ok u) =
    let list = peers_list f file in
    if contains addr list
    then (file, ok false)
    else written (peers_write f dir (list ++ (addr ∷ [])) file)
add_valid f dir addr file (err e) = (file, err e)
add_valid f dir addr file panic = (file, panic)

unfoldable pub peers_add :
    PeersFaults → Bytes → Bytes → Option Bytes → Option Bytes × Result Bytes Bool
unfolding add_valid
peers_add f dir addr file = add_valid f dir addr file (validate_peer_addr addr)

-- `filter(|p| p != addr)`
unfoldable pub without : Bytes → List Bytes → List Bytes
without addr [] = []
without addr (p ∷ ps) = if same_bytes p addr then without addr ps else p ∷ without addr ps

unfoldable pub peers_remove :
    PeersFaults → Bytes → Bytes → Option Bytes → Option Bytes × Result Bytes Bool
unfolding peers_list peers_write written without
peers_remove f dir addr file =
    let list = peers_list f file in
    if length (without addr list) == length list
    then (file, ok false)
    else written (peers_write f dir (without addr list) file)
