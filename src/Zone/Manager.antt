-- ===== src/Zone/Manager.antt =====
-- The zone manager of internal/zone/zone_mgr.go with what it holds: its creation, the statuses of
-- the peers, and SetAgentStatus; and ControlGRPCService of internal/api/grpc.go on top of it.
pub mod Control
use election_agent.Prelude.{
  ℕ, String, Bool, false, not, Option, none, some, List, [], ◌∷◌, ◌==◌, eqb, if◌then◌else◌, is_some,
  length,
}
use election_agent.Errors.{Error, text, Multierror}
use election_agent.Agent.{
  Status, active_state, normal_mode, unavailable_state, valid_states, valid_modes, contains,
}
use election_agent.Config.{Config}
use election_agent.Redlock.Mutex.{Float64}
use election_agent.Driver.AgentState.{KvStore, InfoKeys, get_agent_status, set_agent_status}
use election_agent.Lease.{RedisLease}
use election_agent.Lease.Cache.{TwoQueueCache, Hasher, LeaseManager}
use election_agent.Lease.Manager.{Managed, set_state_cache}

-- The fields of ZoneConfig that NewZoneManager reads beside those of Config.
pub record ZoneUrls : Type 0 where
  pub coordinator_url : String
  pub peer_urls : List String

abbrev pub empty_setting : Error
empty_setting = text "The config is empty"

-- The checks of the configuration; `none` passes.
unfoldable pub check_zone_config : Config → ZoneUrls → Option Error
check_zone_config cfg urls =
    if cfg.name == ""
    then some empty_setting
    else if cfg.zone_name == ""
    then some empty_setting
    else if urls.coordinator_url == ""
    then some empty_setting
    else if eqb (length urls.peer_urls) 0
    then some empty_setting
    else none

-- getPeerStatus: the answers of the peers in the order of arrival; the first error of errs.Wait
unfoldable pub get_peer_status : {A : Type 0} → List (A × Option Error) → List A × Option Error
get_peer_status [] = ([], none)
get_peer_status ((status, some e) ∷ answers) = ([], some e)
get_peer_status ((status, none) ∷ answers) =
    let rest = get_peer_status answers in
    elim rest.1 [ some e ↦ ([], some e) | none ↦ (status ∷ rest.0, none) ]

-- SetPeerStatus: the errors of the peers in the order of arrival; their answers are not looked at
unfoldable pub set_peer_status : List (Bool × Option Error) → Option Error
set_peer_status [] = none
set_peer_status ((value, some e) ∷ answers) = some e
set_peer_status ((value, none) ∷ answers) = set_peer_status answers

-- The reply of SetStatus.
pub data SetReply : Type 0 where
  set_ok invalid_argument failed_precondition : SetReply

module _ (F : Float64) (H : Hasher) (C : TwoQueueCache (RedisLease F)) (K : KvStore)
    (keys : InfoKeys) where
  -- The status of the process, and the lease manager with the store.
  pub record Process : Type 0 where
    pub local : Status
    pub managed : Managed F H C K keys

  -- The answers of zoneManager.SetAgentStatus, at a time
  unfoldable pub set_process_status : Status → ℕ → Process → Process × Option Error
  set_process_status status now p =
      let lm = set_state_cache F H C K keys status.state now p.managed.0 in
      let (w, err) = set_agent_status K keys status p.managed.1 in
      (record { local = status; managed = (lm, w) }, err)

  -- What NewZoneManager leaves: the local status and the state cache, at a time. Its connections to
  -- the peers are a parameter.
  unfoldable pub new_zone_manager :
      Config → ZoneUrls → Option Error → ℕ → Process → Process × Option Error
  new_zone_manager cfg urls peer_err now p =
      let idle : Status = record {
        state = active_state;
        mode = normal_mode;
        active_zone = "";
        zc_connected = false;
        peer_connected = false;
      } in
      let (w, (status, err)) = get_agent_status K keys cfg p.managed.1 in
      if not cfg.zone_enable
      then (
        record {
          local = idle;
          managed = (set_state_cache F H C K keys active_state now p.managed.0, p.managed.1);
        },
        none,
      )
      else if is_some (check_zone_config cfg urls)
      then (p, check_zone_config cfg urls)
      else if is_some peer_err
      then (p, peer_err)
      else if is_some err
      then (record p { managed = (p.managed.0, w) }, err)
      else (
        record {
          local = status;
          managed = (set_state_cache F H C K keys status.state now p.managed.0, w);
        },
        none,
      )

  -- ControlGRPCService.GetStatus; Proto copies every field
  unfoldable pub get_status : Process → Status
  get_status p = p.local

  -- ControlGRPCService.SetStatus, on the state and the mode of the request
  unfoldable pub set_status : String → String → ℕ → Process → Process × SetReply
  unfolding set_process_status
  set_status state mode now p =
      if not (contains valid_states state)
      then (p, invalid_argument)
      else if not (contains valid_modes mode)
      then (p, invalid_argument)
      else let (p', err) =
          set_process_status (record p.local { state = state; mode = mode }) now p in
        (p', if is_some err then failed_precondition else set_ok)
