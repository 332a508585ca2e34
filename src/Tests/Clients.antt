-- ===== src/Tests/Clients.antt =====
-- Runs of `sync_stream` and `push_stream` of src/spore_peer.rs against a peer with canned answers.
use spore_peer.Prelude.{
  ◌+◌, ℕ, zero, suc, ◌≤◌, ◌≡◌, refl, [], ◌∷◌, Bytes, ascii, length, replicate, none, ok,
}
use spore_peer.Crates.{plain_crates}
use spore_peer.Text.{lower_hex, digit_char, decimal, is_utf8, from_hex, hex_digit}
use spore_peer.Words.{le_bytes, from_le_bytes, be_bytes, from_be_bytes}
use spore_peer.Json.{insert_field, lookup_field}
use spore_peer.Dict.{lookup, insert}
use spore_peer.Frames.{write_frame, read_exact, read_payload, read_frame}
use spore_peer.Cbor.Encode.{
  message, head, text, uint, bytes, array, map, kv, hash32, header, handshake_request,
  chain_request, handshake_response, chain_pairs, chain_response, getobject_request,
  getobject_response,
}
use spore_peer.Cbor.Decode.{
  slice_from, get_range, read_arg, head_args, read_head, decode_child, decode_items, insert_pair,
  decode_pairs, decode_string, simple_value, decode_body, decode_levels, decode_value,
  decode_payload, decode_message,
}
use spore_peer.Store.Decode.{from_pair, decode_chunks, hex_decode}
use spore_peer.Store.Files.{Hold}
use spore_peer.Client.Call.{
  Remote, Conn, decoded, received, answer_of, rpc2_call, or_refused, chain_of, after_handshake,
  opening,
}
use spore_peer.Client.Sync.{
  SyncSetting, max_fetches, pair_of, entry_pair, topo_text, proceed, write_fetched, check_fetched,
  fetched_body, on_body, on_object, fetch, on_blid, sync_pair, sync_entries, sync_result,
  sync_opened, sync_stream,
}
use spore_peer.Client.Push.{PushSetting}
use spore_peer.Peers.File.{no_peers_faults, peers_list}
use spore_peer.Client.Converge.{Connect, PassSetting, peers_file, sync_pass}
use spore_peer.Client.Converge.Laws.{sync_pass_lem}
use spore_peer.Client.Sync.Laws.{IsAddressed, IsKept}
use spore_peer.Client.Sync.Pass.{sync_stream_ok}

abbrev blid : Bytes
blid = replicate 32 0

abbrev reply : ℕ → Bytes
reply zero = write_frame (message [] 1 [] (handshake_response 7 1))
reply (suc zero) = write_frame (message [] 2 [] (chain_response ((7, blid) ∷ [])))
reply (suc (suc n)) = write_frame (message [] 100 [] (getobject_response (ascii "body")))

-- A peer that answers without reading.
abbrev canned : Remote
canned = record { State = ℕ; send = λ n frame. (suc n, ok (reply n)); eof = ascii "eof" }

abbrev connected : Conn canned
connected = record { state = 0; unread = [] }

abbrev pulling : SyncSetting
pulling = record {
  dir = ascii "store";
  write_at = λ i. 9;
  write_fault = λ i. none;
  hex_error = λ s. ascii "bad hex";
}

sync_run : (sync_stream canned plain_crates pulling connected []).1 ≡ ok (7, 1, 0)
unfolding sync_stream sync_opened sync_result sync_entries sync_pair on_blid fetch on_object on_body
    fetched_body check_fetched write_fetched proceed entry_pair pair_of topo_text hex_decode
    decode_chunks from_pair from_hex hex_digit lookup insert decimal getobject_request
    handshake_request chain_request opening after_handshake chain_of or_refused rpc2_call answer_of
    received decoded decode_message decode_payload decode_value decode_levels decode_body
    simple_value decode_string decode_pairs insert_pair decode_items decode_child read_head
    head_args read_arg get_range slice_from read_frame read_payload read_exact write_frame message
    head text uint bytes array map kv hash32 header handshake_response chain_pairs chain_response
    getobject_response le_bytes from_le_bytes be_bytes from_be_bytes lower_hex digit_char is_utf8
    insert_field lookup_field
sync_run = refl

nothing-IsAddressed : IsAddressed plain_crates []
unfolding lookup
nothing-IsAddressed cid_hex file e = cc

sync_stream_ok_example :
    IsAddressed plain_crates (sync_stream canned plain_crates pulling connected []).0.hold
    × (1 ≤ max_fetches)
sync_stream_ok_example =
    sync_stream_ok canned plain_crates pulling connected [] 7 1 0 nothing-IsAddressed sync_run

abbrev stored : Hold
stored = insert (ascii "peers.txt") (record { content = ascii "alpha:1"; modified = 3 }) []

abbrev pushing : PushSetting
pushing = record {
  dir = ascii "store";
  token = [];
  read_fault = λ n. none;
  missing = ascii "missing";
}

abbrev reached : Connect canned
reached = λ s addr. (s, ok tt)

abbrev passing : PassSetting
passing = record { faults = no_peers_faults; pull = λ i. pulling; push = λ i. pushing }

sync_pass_lem_example :
    IsKept stored (sync_pass canned plain_crates reached passing 0 stored).0.hold
    × ((sync_pass canned plain_crates reached passing 0 stored).1 ≡ ok tt
        → (sync_pass canned plain_crates reached passing 0 stored).0.synced
            + (sync_pass canned plain_crates reached passing 0 stored).0.failed
          ≡ length (peers_list no_peers_faults (peers_file stored)))
sync_pass_lem_example = sync_pass_lem canned plain_crates reached passing 0 stored
