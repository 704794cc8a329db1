-- ===== src/Relay/Server/Privacy.antt =====
-- Which results reach the waiting image handlers of relay/src/bin/server.rs.
use context_guardian.Prelude.{
  ℕ, suc, ◌≤◌, String, ◌≡◌, sym, inl, inr, Option, List, [], ◌∷◌, arith, eqb, if◌then◌else◌, erase,
  All,
}
use context_guardian.Relay.Identity.{Crypto, RegisterRequest, RelayResult}
use context_guardian.Relay.State.{AppState}
use context_guardian.Relay.Tenants.{StoreCodec, Outcomes}
use context_guardian.Relay.Requests.{ImageQuery, Waiting, pop_job, clean_up}
use context_guardian.Relay.Requests.Entries.{
  pop_job-inflight, clean_up-inflight, result-outcome, image-outcome,
}
use context_guardian.Relay.Limits.{OfAll, OfAll-put, OfAll-erase}
use context_guardian.Relay.Limits.Registering.{register-outcome}
use context_guardian.Relay.Tunnels.{
  add_blind_slot, remove_closed_blind_slots, route_blind_connection,
}
use context_guardian.Relay.Tunnels.Untouched.{
  add_blind_slot-inflight, remove_closed_blind_slots-inflight, route_blind_connection-inflight,
}
use context_guardian.Relay.Server.{
  Sent, Server, Step, step_register, step_poll, step_result, step_image, step_finish, step_tunnel,
  step_close_slots, step_route, Reaches, started, stepped, registering, posting, requesting,
}

-- A running Relay in which no request was made yet.
abbrev pub Quiet : Server → Type 0
Quiet s = (s.app.inflight ≡ []) × (s.waiting ≡ []) × (s.sent ≡ [])

-- The channel was opened for the tenant, and is one of the first `next`.
abbrev pub Opened : (ℕ → String) → ℕ → ℕ → String → Type 0
Opened owner next channel tenant_id = (owner channel ≡ tenant_id) × (suc channel ≤ next)

-- Entries, handlers and messages all stand with the tenant that their channel was opened for.
pub record Owned (owner : ℕ → String) (s : Server) : Type 0 where
  pub entries : OfAll (λ e. Opened owner s.next_channel e.sender e.tenant_id) s.app.inflight
  pub waiters : All (λ w. Opened owner s.next_channel w.receiver w.tenant_id) s.waiting
  pub messages : All (λ m. Opened owner s.next_channel m.channel m.tenant_id) s.sent

-- The owners after a channel is opened for a tenant.
opened_for : ℕ → String → (ℕ → String) → ℕ → String
opened_for next tenant_id owner channel = if eqb channel next then tenant_id else owner channel

module _ (owner : ℕ → String) (next : ℕ) (tenant_id : String) where
  newest : Opened (opened_for next tenant_id owner) (suc next) next tenant_id
  unfolding opened_for
  newest = (ground arith, omega arith)

  older :
      (channel : ℕ) (of : String)
      → Opened owner next channel of
      → Opened (opened_for next tenant_id owner) (suc next) channel of
  unfolding opened_for
  older channel of (is_owner, earlier) = (ground arith, omega (arith, earlier))

  older_waiters :
      (waiting : List Waiting)
      → All (λ w. Opened owner next w.receiver w.tenant_id) waiting
      → All
          (λ w. Opened (opened_for next tenant_id owner) (suc next) w.receiver w.tenant_id)
          waiting
  older_waiters [] all = all
  older_waiters (w ∷ waiting) all =
      (older w.receiver w.tenant_id all.0, older_waiters waiting all.1)

  older_messages :
      (sent : List Sent)
      → All (λ m. Opened owner next m.channel m.tenant_id) sent
      → All (λ m. Opened (opened_for next tenant_id owner) (suc next) m.channel m.tenant_id) sent
  older_messages [] all = all
  older_messages (m ∷ sent) all = (older m.channel m.tenant_id all.0, older_messages sent all.1)

module _ (owner : ℕ → String) (s : Server) (owned : Owned owner s) where
  -- A step that opens no channel and sends nothing, and leaves the requests in flight or drops one.
  kept : (app : AppState) → app.inflight ≡ s.app.inflight → Owned owner (record s { app = app })
  kept app same = record {
    entries = rw (same) owned.entries;
    waiters = owned.waiters;
    messages = owned.messages;
  }

  dropped :
      (app : AppState) (request_id : String)
      → app.inflight ≡ erase request_id s.app.inflight
      → Owned owner (record s { app = app })
  dropped app request_id same = record {
    entries = rw (same) (
        OfAll-erase (λ e. Opened owner s.next_channel e.sender e.tenant_id) request_id
          s.app.inflight owned.entries);
    waiters = owned.waiters;
    messages = owned.messages;
  }

module _ (codec : StoreCodec) (c : Crypto) (owner : ℕ → String) (s : Server)
    (owned : Owned owner s) where
  registering-Owned :
      (outcomes : Outcomes) (input : RegisterRequest)
      → Owned owner (registering codec c outcomes input s)
  unfolding registering
  registering-Owned outcomes input = record {
    entries = elim (register-outcome codec c outcomes input s.app s.disk) [
      | inl (new, (added, status)) ↦ rw (added) owned.entries
      | inr (same, status) ↦ rw (same) owned.entries
    ];
    waiters = owned.waiters;
    messages = owned.messages;
  }

  -- The message of an answered request goes to the channel of its entry.
  posting-Owned :
      (tenant_id request_id : String) (authorization : Option String) (reply : RelayResult)
      → Owned owner (posting codec c tenant_id request_id authorization reply s)
  unfolding posting
  posting-Owned tenant_id request_id authorization reply =
      elim (result-outcome s.app c tenant_id request_id authorization reply) [
        | inl (same, status, silent) ↦ record {
          entries = rw (same) owned.entries;
          waiters = owned.waiters;
          messages = rw (silent) owned.messages;
        }
        | inr (known, (entry, there, of_tenant, removed, status, message)) ↦ record {
          entries = rw (removed) (
              OfAll-erase (λ e. Opened owner s.next_channel e.sender e.tenant_id) request_id
                s.app.inflight owned.entries);
          waiters = owned.waiters;
          messages =
              rw (message)
                (rw (sym of_tenant) (owned.entries request_id entry there), owned.messages);
        }
      ]

  requesting-Owned :
      (tenant_id filename : String) (query : ImageQuery) (request_id : String)
      → Owned
          (opened_for s.next_channel tenant_id owner)
          (requesting codec c tenant_id filename query request_id s)
  unfolding requesting
  requesting-Owned tenant_id filename query request_id =
      let before : OfAll
          (λ e.
            Opened (opened_for s.next_channel tenant_id owner) (suc s.next_channel) e.sender
              e.tenant_id)
          s.app.inflight =
        λ k e found.
          older owner s.next_channel tenant_id e.sender e.tenant_id (owned.entries k e found) in
      elim (image-outcome s.app tenant_id filename query s.next_channel request_id) [
        | inl (same, hidden) ↦ record {
          entries = rw (same) before;
          waiters =
              rw (hidden) (older_waiters owner s.next_channel tenant_id s.waiting owned.waiters);
          messages = older_messages owner s.next_channel tenant_id s.sent owned.messages;
        }
        | inr (entered, asked) ↦ record {
          entries = rw (entered) (
              OfAll-put
                (λ e.
                  Opened (opened_for s.next_channel tenant_id owner) (suc s.next_channel) e.sender
                    e.tenant_id)
                request_id (record { tenant_id = tenant_id; sender = s.next_channel })
                s.app.inflight (newest owner s.next_channel tenant_id) before);
          waiters = rw (asked) (
            newest owner s.next_channel tenant_id,
            older_waiters owner s.next_channel tenant_id s.waiting owned.waiters,
          );
          messages = older_messages owner s.next_channel tenant_id s.sent owned.messages;
        }
      ]

module _ (codec : StoreCodec) (c : Crypto) where
  Step-Owned :
      (s t : Server)
      → Step codec c s t
      → (owner : ℕ → String) → Owned owner s
      → (owner' : ℕ → String) × Owned owner' t
  Step-Owned s _ (step_register _ outcomes input) owner owned =
      (owner, registering-Owned codec c owner s owned outcomes input)
  Step-Owned s _ (step_poll _ tenant_id authorization known) owner owned =
      (owner, kept owner s owned (pop_job s.app tenant_id).0 (pop_job-inflight s.app tenant_id))
  Step-Owned s _ (step_result _ tenant_id request_id authorization reply) owner owned =
      (owner, posting-Owned codec c owner s owned tenant_id request_id authorization reply)
  Step-Owned s _ (step_image _ tenant_id filename query request_id) owner owned = (
    opened_for s.next_channel tenant_id owner,
    requesting-Owned codec c owner s owned tenant_id filename query request_id,
  )
  Step-Owned s _ (step_finish _ waiting) owner owned = (
    owner,
    dropped owner s owned (clean_up s.app waiting) waiting.request_id
        (clean_up-inflight s.app waiting),
  )
  Step-Owned s _ (step_tunnel _ tenant_id authorization sender known) owner owned = (
    owner,
    kept owner s owned (add_blind_slot s.app tenant_id sender).0
        (add_blind_slot-inflight s.app tenant_id sender),
  )
  Step-Owned s _ (step_close_slots _ is_closed tenant_id) owner owned = (
    owner,
    kept owner s owned (remove_closed_blind_slots is_closed s.app tenant_id)
        (remove_closed_blind_slots-inflight s.app is_closed tenant_id),
  )
  Step-Owned s _ (step_route _ is_closed server_name) owner owned = (
    owner,
    kept owner s owned (route_blind_connection is_closed s.app server_name).0
        (route_blind_connection-inflight s.app is_closed server_name),
  )

  pub Reaches-Owned :
      (first last : Server)
      → (owner : ℕ → String) → Owned owner first
      → Reaches codec c first last
      → (owner' : ℕ → String) × Owned owner' last
  Reaches-Owned first _ owner owned started = (owner, owned)
  Reaches-Owned first _ owner owned (stepped s t before step) =
      let (owner', owned') = Reaches-Owned first s owner owned before in
      Step-Owned s t step owner' owned'
