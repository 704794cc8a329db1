-- ===== src/Relay/Server.antt =====
-- The running Relay of relay/src/bin/server.rs: its state, its disk, the handlers that wait and the messages
-- on their channels, and the steps in which the handlers interleave. Every step is what one handler
-- does between two waits. A handler that is dropped while it waits takes no further step.
pub mod Bounded
pub mod Privacy
use context_guardian.Prelude.{
  ℕ, suc, String, ◌≡◌, Bool, true, false, Option, none, some, List, [], ◌∷◌, map, is_some,
}
use context_guardian.Relay.Identity.{Crypto, RegisterRequest, RelayResult}
use context_guardian.Relay.State.{AppState, Tenant}
use context_guardian.Relay.Tenants.{StoreCodec, Disk, Outcomes, register, authenticate}
use context_guardian.Relay.Requests.{ImageQuery, Waiting, pop_job, result, image, clean_up}
use context_guardian.Relay.Tunnels.{
  blind_tunnel, add_blind_slot, remove_closed_blind_slots, route_blind_connection,
  acquire_connection, release_connection,
}

-- A message on a channel, with the tenant whose client posted it.
pub record Sent : Type 0 where
  pub channel : ℕ
  pub tenant_id : String
  pub reply : RelayResult

pub record Server : Type 0 where
  pub app : AppState
  pub disk : Disk
  pub next_channel : ℕ
  pub waiting : List Waiting
  pub sent : List Sent

abbrev pub add_waiting : Option Waiting → List Waiting → List Waiting
add_waiting none waiting = waiting
add_waiting (some w) waiting = w ∷ waiting

abbrev pub add_sent : String → Option (ℕ × RelayResult) → List Sent → List Sent
add_sent tenant_id none sent = sent
add_sent tenant_id (some (channel, reply)) sent =
    record { channel = channel; tenant_id = tenant_id; reply = reply } ∷ sent

abbrev pub with_app : AppState → Server → Server
with_app app s = record s { app = app }

module _ (codec : StoreCodec) (c : Crypto) where
  -- What each request comes to.
  unfoldable pub registering : Outcomes → RegisterRequest → Server → Server
  registering outcomes input s =
      let (app, disk, status) = register codec c outcomes input s.app s.disk in
      record s { app = app; disk = disk }

  unfoldable pub posting : String → String → Option String → RelayResult → Server → Server
  posting tenant_id request_id authorization reply s =
      let (app, status, message) = result c s.app tenant_id request_id authorization reply in
      record s { app = app; sent = add_sent tenant_id message s.sent }

  unfoldable pub requesting : String → String → ImageQuery → String → Server → Server
  requesting tenant_id filename query request_id s =
      let (app, waiting) = image s.app tenant_id filename query s.next_channel request_id in
      record s {
        app = app;
        next_channel = suc s.next_channel;
        waiting = add_waiting waiting s.waiting;
      }

  pub data Step : Server → Server → Type 0 where
    step_register :
        (s : Server) (outcomes : Outcomes) (input : RegisterRequest)
        → Step s (registering outcomes input s)
    step_poll :
        (s : Server) (tenant_id : String) (authorization : Option String)
        → is_some (authenticate c s.app tenant_id authorization) ≡ true
        → Step s (with_app (pop_job s.app tenant_id).0 s)
    step_result :
        (s : Server) (tenant_id request_id : String) (authorization : Option String)
        (reply : RelayResult)
        → Step s (posting tenant_id request_id authorization reply s)
    step_image :
        (s : Server) (tenant_id filename : String) (query : ImageQuery) (request_id : String)
        → Step s (requesting tenant_id filename query request_id s)
    step_finish : (s : Server) (waiting : Waiting) → Step s (with_app (clean_up s.app waiting) s)
    step_tunnel :
        (s : Server) (tenant_id : String) (authorization : Option String) (sender : ℕ)
        → is_some (blind_tunnel c s.app tenant_id authorization) ≡ true
        → Step s (with_app (add_blind_slot s.app tenant_id sender).0 s)
    step_close_slots :
        (s : Server) (is_closed : ℕ → Bool) (tenant_id : String)
        → Step s (with_app (remove_closed_blind_slots is_closed s.app tenant_id) s)
    step_route :
        (s : Server) (is_closed : ℕ → Bool) (server_name : String)
        → Step s (with_app (route_blind_connection is_closed s.app server_name).0 s)

  -- The states that the handlers reach from a first one.
  pub data Reaches (first : Server) : Server → Type 0 where
    started : Reaches first first
    stepped : (s t : Server) → Reaches first s → Step s t → Reaches first t
