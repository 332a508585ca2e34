-- ===== src/Tests/Connection.antt =====
-- Runs of the loop of `handle_client` of src/spore_peer.rs over the bytes of a connection.
use spore_peer.Prelude.{◌≡◌, refl, [], ◌∷◌, ◌++◌, Bytes, ascii, some, err, arith}
use spore_peer.Crates.{plain_crates}
use spore_peer.Frames.{short_read, read_exact, read_frame}
use spore_peer.Fabric.State.{default_config}
use spore_peer.Fabric.Reach.{fresh-IsRelay}
use spore_peer.Server.{handle_legacy, handle_frame}
use spore_peer.Server.Legacy.{handle_frame-legacy}
use spore_peer.Server.Connection.{Ends, handle_client, handle_client-Ends}
use spore_peer.Server.Exchange.{frames, exchange, handle_client-exchange}
use spore_peer.Tests.Serving.{opened, opened_IsHold, setting, push_frame}

-- A frame, and one that ends inside its length.
abbrev cut_short : Bytes
cut_short = 9 ∷ 0 ∷ []

handle_client-Ends_example :
    Ends plain_crates
      (λ i. setting)
      (handle_client plain_crates (λ i. setting) (frames (push_frame ∷ []) ++ cut_short) opened)
handle_client-Ends_example =
    handle_client-Ends plain_crates (λ i. setting) (frames (push_frame ∷ []) ++ cut_short) opened
      (opened_IsHold, fresh-IsRelay default_config)

cut_short_read : read_frame cut_short ≡ err short_read
unfolding read_frame read_exact
cut_short_read = refl

handle_client-exchange_example :
    handle_client plain_crates
      (λ i. setting)
      (frames (ascii "no request" ∷ ascii "nor this" ∷ []) ++ cut_short)
      opened
    ≡ some
        (exchange plain_crates (λ i. setting) 0 (ascii "no request" ∷ ascii "nor this" ∷ []) opened)
handle_client-exchange_example =
    handle_client-exchange plain_crates (λ i. setting) short_read cut_short cut_short_read
      (ascii "no request" ∷ ascii "nor this" ∷ []) opened
      ((omega arith, omega arith), ((omega arith, omega arith), tt))

handle_frame-legacy_example :
    handle_frame plain_crates setting opened (ascii "{\"cid\":\"00\"}")
    ≡ handle_legacy plain_crates setting opened
        (plain_crates.json.from_slice (ascii "{\"cid\":\"00\"}"))
handle_frame-legacy_example =
    handle_frame-legacy plain_crates setting opened (ascii "\"cid\":\"00\"}")
