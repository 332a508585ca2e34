-- ===== src/Tests/Serving.antt =====
-- A run of the dispatch of a frame in src/spore_peer.rs.
use spore_peer.Prelude.{[], Bytes, ascii, replicate, none, some}
use spore_peer.Crates.{plain_crates}
use spore_peer.Dict.{lookup}
use spore_peer.Cbor.Encode.{message, putobject_request}
use spore_peer.Store.Files.{no_hold_faults}
use spore_peer.Store.Laws.{IsHold}
use spore_peer.Fabric.State.{default_config, no_faults}
use spore_peer.Fabric.Reach.{fresh, fresh-IsRelay}
use spore_peer.Server.{Server, Setting, IsServer, handle_frame, handle_frame-IsServer}

abbrev pub opened : Server
opened = record {
  node = record { hold = []; limiter = record { max = 0; wins = [] } };
  fabric = some (fresh default_config);
}

abbrev pub setting : Setting
setting = record {
  ip = ascii "10.0.0.1";
  cfg = record { max_store_bytes = 0; put_rate = 0; token = none };
  push = record { limit_at = 1; write_at = 1 };
  verb = record {
    reg_at = 1;
    put = record { lease_at = 1; limit_at = 1; check_at = 1; stamp_at = 1; reap_at = 1 };
    pop = record { limit_at = 1; lease_at = 1; drain_at = 1 };
  };
  hold_faults = no_hold_faults;
  faults = no_faults;
}

pub opened_IsHold : IsHold plain_crates []
unfolding lookup
opened_IsHold cid_hex file e = cc

abbrev pub push_frame : Bytes
push_frame =
    message (ascii "Peer.PutObject") 1 [] (putobject_request (replicate 32 0) (ascii "body") [])

handle_frame-IsServer_example :
    IsServer plain_crates (handle_frame plain_crates setting opened push_frame).0
handle_frame-IsServer_example =
    handle_frame-IsServer plain_crates setting opened push_frame
      (opened_IsHold, fresh-IsRelay default_config)
