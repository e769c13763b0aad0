-- ===== src/Ftp/Connections.antt =====
-- pkg/ftp/driver.go, the connection part of `BridgeDriver`: `ClientConnected`, `ClientDisconnected`
-- and `extractClientIP`. A connection has an id and a remote address that the FTP library supplies.
pub mod Counts
pub mod Runs
use ocis_ftp_bridge.Prelude.{
  ℕ, Bool, true, false, Option, none, some, List, [], ◌∷◌, if◌then◌else◌, Bytes,
}
use ocis_ftp_bridge.Prelude.Int.{ℤ, suc_ℤ, pred_ℤ}
use ocis_ftp_bridge.Prelude.Map.{Map, lookup, insert, delete, nat_eq}
use ocis_ftp_bridge.Go.Net.{split_host_port}
use ocis_ftp_bridge.Ftp.ConnectionTracker.{
  ConnectionTracker, allow_connection, release_connection, is_some,
}

pub record Connections : Type 0 where
  pub tracker : Option ConnectionTracker
  pub allowed_connections : Map ℕ Bool
  pub active_connections : ℤ
  -- The users of the logged-in sessions, by connection.
  pub clients : Map ℕ Bytes
  -- The connections whose session context was cancelled.
  pub cancelled : List ℕ

unfoldable pub extract_client_ip : Bytes → Bytes
unfolding split_host_port
extract_client_ip remote_addr = elim (split_host_port remote_addr) [
  | some host ↦ host
  | none ↦ remote_addr
]

unfoldable pub client_connected : Connections → ℕ → Bytes → Connections × Bool
unfolding allow_connection
client_connected d id addr =
    let (tracker', ok) = allow_connection d.tracker (extract_client_ip addr) in
    if ok
    then (
      record d {
        tracker = tracker';
        allowed_connections = insert id true d.allowed_connections;
        active_connections = suc_ℤ d.active_connections;
      },
      true,
    )
    else (record d { tracker = tracker' }, false)

-- Deleting an id that is not there changes nothing, so `delete` stands for both branches of the maps.
unfoldable pub client_disconnected : Connections → ℕ → Bytes → Connections
unfolding release_connection
client_disconnected d id addr =
    let registered = is_some (lookup id d.clients) in
    let was_allowed = is_some (lookup id d.allowed_connections) in
    record d {
      clients = delete id d.clients;
      cancelled = if registered then id ∷ d.cancelled else d.cancelled;
      allowed_connections = delete id d.allowed_connections;
      tracker =
          if was_allowed then release_connection d.tracker (extract_client_ip addr) else d.tracker;
      active_connections = pred_ℤ d.active_connections;
    }
