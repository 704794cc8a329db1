-- ===== src/Relay/Server/Bounded.antt =====
-- The limits of the state over all runs of relay/src/bin/server.rs.
use context_guardian.Relay.Identity.{Crypto}
use context_guardian.Relay.State.{WithinLimits}
use context_guardian.Relay.Tenants.{StoreCodec}
use context_guardian.Relay.Server.{
  Server, Step, step_register, step_poll, step_result, step_image, step_finish, step_tunnel,
  step_close_slots, step_route, Reaches, started, stepped, registering, posting, requesting,
}
use context_guardian.Relay.Limits.Registering.{register-WithinLimits}
use context_guardian.Relay.Limits.Requesting.{
  pop_job-WithinLimits, result-WithinLimits, image-WithinLimits, clean_up-WithinLimits,
}
use context_guardian.Relay.Limits.Tunnelling.{
  add_blind_slot-WithinLimits, remove_closed_blind_slots-WithinLimits,
  route_blind_connection-WithinLimits,
}

module _ (codec : StoreCodec) (c : Crypto) where
  pub Step-WithinLimits :
      (s t : Server) → Step codec c s t → WithinLimits s.app → WithinLimits t.app
  unfolding registering posting requesting
  Step-WithinLimits s _ (step_register _ outcomes input) within =
      register-WithinLimits codec c outcomes input s.app s.disk within
  Step-WithinLimits s _ (step_poll _ tenant_id authorization known) within =
      pop_job-WithinLimits s.app within tenant_id
  Step-WithinLimits s _ (step_result _ tenant_id request_id authorization reply) within =
      result-WithinLimits s.app within c tenant_id request_id authorization reply
  Step-WithinLimits s _ (step_image _ tenant_id filename query request_id) within =
      image-WithinLimits s.app within tenant_id filename query s.next_channel request_id
  Step-WithinLimits s _ (step_finish _ waiting) within = clean_up-WithinLimits s.app within waiting
  Step-WithinLimits s _ (step_tunnel _ tenant_id authorization sender known) within =
      add_blind_slot-WithinLimits s.app within tenant_id sender
  Step-WithinLimits s _ (step_close_slots _ is_closed tenant_id) within =
      remove_closed_blind_slots-WithinLimits s.app within is_closed tenant_id
  Step-WithinLimits s _ (step_route _ is_closed server_name) within =
      route_blind_connection-WithinLimits s.app within is_closed server_name

  -- Every state that the handlers reach from a state within the limits is within them: at most
  -- 10000 tenants, 1024 requests in flight, 16 queued requests of a tenant and 8 slots of a tenant.
  pub Reaches-WithinLimits :
      (first last : Server)
      → WithinLimits first.app
      → Reaches codec c first last
      → WithinLimits last.app
  Reaches-WithinLimits first _ within started = within
  Reaches-WithinLimits first _ within (stepped s t before step) =
      Step-WithinLimits s t step (Reaches-WithinLimits first s within before)
