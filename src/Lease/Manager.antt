-- ===== src/Lease/Manager.antt =====
-- LeaseManager of internal/lease/lease_mgr.go: the agent's state gates every operation on a lease.
-- The metrics are left out.
pub mod Gate
pub mod Refusal
use election_agent.Prelude.{
  ℕ, String, not, Option, none, some, List, [], map, ◌==◌, if◌then◌else◌, is_some,
}
use election_agent.Errors.{Error, text, unavailable, agent_standby, Multierror}
use election_agent.Agent.{
  State, active_state, standby_state, unavailable_state, load, store, expired,
}
use election_agent.Redis.{RedisServer}
use election_agent.Redlock.Mutex.{Float64, Call, Conn}
use election_agent.Driver.AgentState.{KvStore, InfoKeys, get_agent_state}
use election_agent.Driver.Holders.{Holder}
use election_agent.Lease.{Run, done, panic, RedisLease, grant, revoke, extend_lease, handover_lease}
use election_agent.Lease.Cache.{
  TwoQueueCache, LeaseArgs, Hasher, LeaseManager, get_lease, new_lease,
}

-- ErrServiceUnavalable and ErrAgentStandby
abbrev pub service_unavailable : Error
service_unavailable = unavailable (text "service unavailable")

abbrev pub standby_error : Error
standby_error = agent_standby (text "agent is in standby mode")

-- The two readings of the clock in getState: by Expired and by Store.
pub record Clock : Type 0 where
  pub checked : ℕ
  pub stored : ℕ

-- GrantLeaseResult, without the ttl
pub record GrantResult : Type 0 where
  pub name : String
  pub kind : String
  pub holder : String

-- What preHook makes of the state.
unfoldable pub gate : String → Option Error
gate state =
    if state == unavailable_state
    then some service_unavailable
    else if state == standby_state
    then some standby_error
    else none

module _ (F : Float64) (H : Hasher) (C : TwoQueueCache (RedisLease F)) (K : KvStore)
    (keys : InfoKeys) where
  -- The manager and the store.
  abbrev pub Managed : Type 0
  Managed = LeaseManager F H C × K.World

  -- SetStateCache, at a time
  unfoldable pub set_state_cache : String → ℕ → LeaseManager F H C → LeaseManager F H C
  unfolding store
  set_state_cache state now lm = record lm { state = store state now lm.state }

  -- What getState does with the answer of GetAgentState.
  unfoldable pub refresh :
      ℕ → LeaseManager F H C → K.World × (String × Option Error) → Managed × String
  unfolding set_state_cache load
  refresh now lm (w, (state, some e)) =
      ((set_state_cache unavailable_state now lm, w), unavailable_state)
  refresh now lm (w, (state, none)) =
      let lm' = set_state_cache state now lm in ((lm', w), load lm'.state)

  unfoldable pub get_state : Clock → Managed → Managed × String
  get_state t (lm, w) =
      if not lm.cfg.zone_enable
      then ((lm, w), lm.cfg.default_state)
      else if expired t.checked lm.state
      then refresh t.stored lm (get_agent_state K keys w)
      else ((lm, w), load lm.state)

  unfoldable pub pre_hook : Clock → Managed → Managed × Option Error
  pre_hook t m = let (m', state) = get_state t m in (m', gate state)

  -- GetLeaseHolder; `holder` is what the driver's GetHolder returns
  unfoldable pub get_lease_holder :
      Clock → String × Option Error → Managed → Managed × (String × Option Error)
  get_lease_holder t holder m =
      let (m', err) = pre_hook t m in elim err [ some e ↦ (m', ("", some e)) | none ↦ (m', holder) ]

  -- GetLeaseHolders; `holders` is what the driver's GetHolders returns
  unfoldable pub get_lease_holders :
      Clock → List Holder × Option Error → Managed → Managed × (List Holder × Option Error)
  get_lease_holders t holders m =
      let (m', err) = pre_hook t m in
      elim err [ some e ↦ (m', ([], some e)) | none ↦ (m', holders) ]

  module _ (R : RedisServer) ⦃lib : Multierror⦄ where
    open R use {Server}

    -- grantLease, after getLease: a failure asks for the current holder, at a later time
    unfoldable pub grant_or_ask :
        Clock
        → String × Option Error
        → LeaseArgs
        → RedisLease F
        → ℕ
        → Call
        → List (Conn R)
        → Managed
        → (Managed × List Server) × (GrantResult × Option Error)
    grant_or_ask later holder a l quorum c conns m =
        let (servers, err) = grant F R l quorum c conns in
        elim err [
          | none ↦
              ((m, servers), (record { name = a.name; kind = l.kind; holder = a.holder }, none))
          | some e ↦
              let (m', (current, err2)) = get_lease_holder later holder m in
              (
                (m', servers),
                (
                  record {
                    name = a.name;
                    kind = l.kind;
                    holder = if is_some err2 then "" else current;
                  },
                  some e,
                ),
              )
        ]

    -- GrantLease
    unfoldable pub grant_lease :
        Clock
        → Clock
        → String × Option Error
        → LeaseArgs
        → ℕ
        → Call
        → List (Conn R)
        → Managed
        → (Managed × List Server) × (GrantResult × Option Error)
    grant_lease t later holder a quorum c conns m =
        let ((lm, w), err) = pre_hook t m in
        let (lm', l) = get_lease F H C a lm in
        elim err [
          | some e ↦ (
            ((lm', w), map (λ x. x.1) conns),
            (record { name = a.name; kind = l.kind; holder = "" }, some e),
          )
          | none ↦ grant_or_ask later holder a l quorum c conns (lm', w)
        ]

    -- RevokeLease; its lease has the ttl 0
    unfoldable pub revoke_lease :
        Clock
        → LeaseArgs
        → ℕ
        → Call
        → List (Conn R)
        → Managed
        → (Managed × List Server) × Option Error
    revoke_lease t a quorum c conns m =
        let ((lm, w), err) = pre_hook t m in
        let (lm1, l) = get_lease F H C (record a { ttl = 0 }) lm in
        let lm2 =
          if lm1.cfg.lease_cache then record lm1 { cache = C.remove lm1.cache l.id } else lm1 in
        let (servers, result) = revoke F R l quorum c conns in
        elim err [
          | some e ↦ (((lm, w), map (λ x. x.1) conns), some e)
          | none ↦ (((lm2, w), servers), result)
        ]

    -- ExtendLease
    unfoldable pub extend_lease_of :
        Clock
        → LeaseArgs
        → ℕ
        → Call
        → List (Conn R)
        → Managed
        → (Managed × List Server) × Run (Option Error)
    extend_lease_of t a quorum c conns m =
        let ((lm, w), err) = pre_hook t m in
        let (lm', l) = get_lease F H C a lm in
        let (servers, result) = extend_lease F R l quorum c conns in
        elim err [
          | some e ↦ (((lm, w), map (λ x. x.1) conns), done (some e))
          | none ↦ (((lm', w), servers), result)
        ]

    -- HandoverLease, which passes the cache by
    unfoldable pub handover_lease_of :
        Clock
        → LeaseArgs
        → ℕ
        → Call
        → List (Conn R)
        → Managed
        → (Managed × List Server) × Run (Option Error)
    handover_lease_of t a quorum c conns m =
        let ((lm, w), err) = pre_hook t m in
        let (servers, result) =
          handover_lease F R (new_lease F H C lm.cfg a) a.holder quorum c conns in
        elim err [
          | some e ↦ (((lm, w), map (λ x. x.1) conns), done (some e))
          | none ↦ (((lm, w), servers), result)
        ]
