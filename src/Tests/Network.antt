-- ===== src/Tests/Network.antt =====
-- A pull of src/spore_peer.rs from a node on the other side of the connection.
use spore_peer.Prelude.{
  true, ◌≡◌, refl, [], ◌∷◌, Bytes, ascii, replicate, none, some, Bool-cases, inl, inr, same_bytes,
  ok, arith,
}
use spore_peer.Text.{is_utf8, lower_hex, digit_char, hex_digit, ends_with}
use spore_peer.Crates.{plain_crates}
use spore_peer.Dict.{lookup}
use spore_peer.Store.Decode.{hex_decode, decode_chunks, from_pair}
use spore_peer.Store.Files.{File, body_name, cid_bytes, check_cid, serve_body}
use spore_peer.Peer.Chain.{
  chain_view, entries, entry_cid, sort_entries, insert_entry, number, select,
}
use spore_peer.Server.{Server}
use spore_peer.Client.Sync.{SyncSetting, sync_stream}
use spore_peer.Client.Sync.Laws.{IsAddressed}
use spore_peer.Network.{online, linked}
use spore_peer.Client.Push.{PushSetting, push_stream}
use spore_peer.Network.Pushed.{IsFrom, push_stream-IsFrom}
use spore_peer.Network.Pull.{IsSane, IsKept}
use spore_peer.Network.Synced.{Synced, sync_stream-pulled}
use spore_peer.Tests.Serving.{opened, setting}

abbrev blid : Bytes
blid = replicate 32 0

abbrev kept : File
kept = record { content = ascii "body"; modified = 3 }

abbrev stocked : Server
stocked = record opened {
  node = record {
    hold = (body_name (lower_hex blid), kept) ∷ [];
    limiter = record { max = 0; wins = [] };
  };
}

abbrev pulling : SyncSetting
pulling = record {
  dir = ascii "store";
  write_at = λ i. 9;
  write_fault = λ i. none;
  hex_error = λ s. ascii "bad hex";
}

stocked-IsSane : IsSane stocked.node.hold
unfolding lookup
stocked-IsSane name file e = elim (Bool-cases (same_bytes (body_name (lower_hex blid)) name)) [
  | inl y ↦ let same : kept ≡ file = cc (rw y at e) in rw (← same) (omega arith, omega arith)
  | inr y ↦ cc (rw y at e)
]

stocked_chain : chain_view stocked.node.hold ≡ ok ((0, blid) ∷ [])
unfolding chain_view entries entry_cid sort_entries insert_entry number hex_decode decode_chunks
    from_pair hex_digit lower_hex digit_char ends_with
stocked_chain = refl

blid_IsKept : IsKept plain_crates stocked blid
unfolding serve_body cid_bytes check_cid hex_decode decode_chunks from_pair hex_digit lower_hex
    digit_char lookup
blid_IsKept = (ascii "body", refl)

nothing_IsAddressed : IsAddressed plain_crates []
unfolding lookup
nothing_IsAddressed cid_hex file e = cc

sync_stream-pulled_example :
    Synced plain_crates
      (λ i. setting)
      (ascii "gone")
      (ascii "eof")
      pulling
      stocked
      ((0, blid) ∷ [])
      []
      (sync_stream
        (online plain_crates (λ i. setting) (ascii "gone") (ascii "eof"))
        plain_crates
        pulling
        (linked plain_crates (λ i. setting) (ascii "gone") (ascii "eof") stocked 0)
        [])
    × ((file : File) × (lookup
            (body_name (lower_hex blid))
            (sync_stream
              (online plain_crates (λ i. setting) (ascii "gone") (ascii "eof"))
              plain_crates
              pulling
              (linked plain_crates (λ i. setting) (ascii "gone") (ascii "eof") stocked 0)
              []).0.hold
          ≡ some file)
        × (plain_crates.sha.digest file.content ≡ blid))
unfolding select
sync_stream-pulled_example =
    sync_stream-pulled plain_crates (λ i. setting) (ascii "gone") (ascii "eof") pulling stocked
      ((0, blid) ∷ []) [] stocked-IsSane (λ i. refl) stocked_chain (omega arith) nothing_IsAddressed
      0 0 blid refl (omega arith) blid_IsKept

abbrev pushing : PushSetting
pushing = record {
  dir = ascii "store";
  token = ascii "key";
  read_fault = λ n. none;
  missing = ascii "missing";
}

token_utf8 : is_utf8 (ascii "key") ≡ true
unfolding is_utf8
token_utf8 = refl

push_stream-IsFrom_example :
    IsFrom stocked.node.hold opened
      (push_stream
        (online plain_crates (λ i. setting) (ascii "gone") (ascii "eof"))
        plain_crates
        pushing
        (linked plain_crates (λ i. setting) (ascii "gone") (ascii "eof") opened 0)
        stocked.node.hold).0.conn.state.server.node.hold
push_stream-IsFrom_example =
    push_stream-IsFrom plain_crates (λ i. setting) (ascii "gone") (ascii "eof") pushing opened
      stocked.node.hold stocked-IsSane (omega arith) token_utf8
