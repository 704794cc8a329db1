-- ===== src/Relay/Tunnels.antt =====
-- The blind tunnels of relay/src/bin/server.rs: the slots in which a tenant's client waits, and the
-- routing of a connection by the server name of its TLS hello, which rustls reads.
pub mod Routing
pub mod Untouched
use Prim.Native.Char.{Char}
use context_guardian.Prelude.{
  ℕ, zero, suc, ◌-◌, String, ◌≡◌, Bool, true, false, not, ◌&&◌, ◌||◌, Option, none, some, List, [],
  ◌∷◌, ◌++◌, ◌==◌, leb, if◌then◌else◌, ◌>>=◌, unwrap_or, is_some, length, all, is_empty,
  is_empty_text, codes, len, ◌+s◌, strip_suffix, strip_prefix, split, contains, Assoc, find, put,
  erase,
}
use context_guardian.Relay.Identity.{Crypto, valid_tenant_id, is_ascii_digit}
use context_guardian.Relay.State.{
  max_blind_slots_per_tenant, Tenant, AppState, StatusCode, not_found, with_blind_slots,
}
use context_guardian.Relay.Tenants.{authenticate}

-- `byte.is_ascii_alphanumeric() || byte == b'-'`
abbrev pub is_label_byte : ℕ → Bool
is_label_byte b =
    is_ascii_digit b
    || ((leb 65 b && leb b 90) || ((leb 97 b && leb b 122) || (leb 45 b && leb b 45)))

unfoldable pub valid_label : String → Bool
valid_label label =
    not (is_empty_text label)
    && (leb (len label) 63
        && (not (is_some (strip_prefix "-" label))
            && (not (is_some (strip_suffix "-" label)) && all is_label_byte (codes label))))

unfoldable pub valid_dns_suffix : String → Bool
valid_dns_suffix value =
    not (is_empty_text value) && (leb (len value) 253 && all valid_label (split "." value))

unfoldable pub tenant_from_server_name : String → String → Option String
tenant_from_server_name server_name suffix = do
  tenant ← strip_suffix ("." +s suffix) server_name
  if not (contains "." tenant) && valid_tenant_id tenant then some tenant else none

module _ (c : Crypto) where
  -- `blind_tunnel` up to the upgrade; `None` is `Err(NOT_FOUND)`.
  unfoldable pub blind_tunnel : AppState → String → Option String → Option Tenant
  blind_tunnel st tenant_id authorization =
      if not (is_some st.blind_suffix) then none else authenticate c st tenant_id authorization

-- The start of `blind_tunnel_socket`: the new channel is a slot, unless the tenant has enough.
-- The map has an entry for the tenant afterwards in both cases.
unfoldable pub add_blind_slot : AppState → String → ℕ → AppState × Bool
add_blind_slot st tenant_id sender =
    let slots = unwrap_or (find tenant_id st.blind_slots) [] in
    if leb max_blind_slots_per_tenant (length slots)
    then (with_blind_slots (put tenant_id slots st.blind_slots) st, false)
    else (with_blind_slots (put tenant_id (slots ++ sender ∷ []) st.blind_slots) st, true)

module _ (is_closed : ℕ → Bool) where
  -- `tenant_slots.retain(|sender| !sender.is_closed())`
  unfoldable pub open_slots : List ℕ → List ℕ
  open_slots [] = []
  open_slots (sender ∷ senders) =
      let rest = open_slots senders in if is_closed sender then rest else sender ∷ rest

  unfoldable pub remove_closed_blind_slots : AppState → String → AppState
  remove_closed_blind_slots st tenant_id = elim (find tenant_id st.blind_slots) [
    | none ↦ st
    | some slots ↦
        let slots' = open_slots slots in
        if is_empty slots'
        then with_blind_slots (erase tenant_id st.blind_slots) st
        else with_blind_slots (put tenant_id slots' st.blind_slots) st
  ]

  -- The loop over the slots: the first whose channel is open takes the connection.
  unfoldable pub first_open : List ℕ → Option (ℕ × List ℕ)
  first_open [] = none
  first_open (sender ∷ senders) =
      let rest = first_open senders in if is_closed sender then rest else some (sender, senders)

  -- What the loop leaves of the slots.
  unfoldable pub take_slot : AppState → String → List ℕ → AppState × Option ℕ
  take_slot st tenant_id slots = elim (first_open slots) [
    | none ↦ (with_blind_slots (erase tenant_id st.blind_slots) st, none)
    | some (sender, left) ↦
        if is_empty left
        then (with_blind_slots (erase tenant_id st.blind_slots) st, some sender)
        else (with_blind_slots (put tenant_id left st.blind_slots) st, some sender)
  ]

  -- `route_blind_connection` once the hello is read; the channel that the connection goes to, or
  -- `None` for an error.
  unfoldable pub route_blind_connection : AppState → String → AppState × Option ℕ
  route_blind_connection st server_name =
      elim (do suffix ← st.blind_suffix; tenant_from_server_name server_name suffix) [
        | none ↦ (st, none)
        | some tenant_id ↦
            if not (is_some (find tenant_id st.tenants))
            then (st, none)
            else elim (find tenant_id st.blind_slots) [
              | none ↦ (st, none)
              | some slots ↦ take_slot st tenant_id slots
            ]
      ]

-- `try_acquire_owned` of the semaphore in `run_blind_listener`, which drops the connection where no
-- permit is left, and the release when the task of the connection ends.
abbrev with_blind_connections : ℕ → AppState → AppState
with_blind_connections permits st = record st { blind_connections = permits }

unfoldable pub acquire_connection : AppState → Option AppState
acquire_connection st = elim st.blind_connections [
  | zero ↦ none
  | suc permits ↦ some (with_blind_connections permits st)
]

unfoldable pub release_connection : AppState → AppState
release_connection st = with_blind_connections (suc st.blind_connections) st
