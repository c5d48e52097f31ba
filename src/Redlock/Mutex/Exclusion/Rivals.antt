-- ===== src/Redlock/Mutex/Exclusion/Rivals.antt =====
-- Any interleaving of scripts that other holders run, one server at a time.
use election_agent.Prelude.{
  ℕ, suc, ◌+◌, ◌*◌, ◌≤◌, ◌<◌, String, ◌≡◌, refl, ap, ◌∙◌, ◌≢◌, ◌⊎◌, inl, inr, true, some, List, ◌∷◌,
  arith, eq_iff, eq_refl, length, count_if-perm, length-perm,
}
use native.Mathlib.Nat.{le_trans, le_of_eq}
use mathlib.Core.List.{Perm}
use election_agent.Redis.{RedisServer, ns_per_ms}
use election_agent.Redlock.Script.{
  same, acquire_script, touch_script, delete_script, handover_script,
}
use election_agent.Redlock.Script.Effect.{
  acquire_script_keeps, delete_script_keeps, touch_script-eq-acquire_script, get-acquire_script,
  get-delete_script, get-handover_script,
}
use election_agent.Redlock.Mutex.Exclusion.{held, same_iff}

-- A script on another key, or on behalf of another holder.
abbrev pub IsRival : String → String → String → String → Type 0
IsRival key holder k value = (k ≢ key) ⊎ (value ≢ holder)

module _ (R : RedisServer) (key holder : String) (u : ℕ) where
  open R use {Server, get, get-earlier}

  -- What happens to one server at a time up to `u`: a rival's script, a handover of another key, or
  -- an extension by the holder that lasts beyond `u`.
  pub data Act (s s' : Server) : Type 0 where
    acquires :
        (k value : String) (ms t : ℕ)
        → IsRival key holder k value
        → t ≤ u
        → 0 < ms
        → s' ≡ (acquire_script R k value ms t s).0
        → Act s s'
    touches :
        (k value : String) (ms t : ℕ)
        → IsRival key holder k value
        → t ≤ u
        → 0 < ms
        → s' ≡ (touch_script R k value ms t s).0
        → Act s s'
    deletes :
        (k value : String) (t : ℕ)
        → IsRival key holder k value
        → t ≤ u
        → s' ≡ (delete_script R k value t s).0
        → Act s s'
    hands_over :
        (k value : String) (ms t : ℕ)
        → k ≢ key
        → t ≤ u
        → 0 < ms
        → s' ≡ (handover_script R k value ms t s).0
        → Act s s'
    extends :
        (ms t : ℕ)
        → t ≤ u
        → 0 < ms
        → u < t + ms * ns_per_ms
        → s' ≡ (touch_script R key holder ms t s).0
        → Act s s'

  -- One server acts, or the connections are listed in another order.
  pub data Step : List Server → List Server → Type 0 where
    one : {s s' : Server} {ss : List Server} → Act s s' → Step (s ∷ ss) (s' ∷ ss)
    other : {s : Server} {ss ss' : List Server} → Step ss ss' → Step (s ∷ ss) (s ∷ ss')
    shuffle : {ss ss' : List Server} → Perm ss ss' → Step ss ss'

  pub data Steps (ss : List Server) : List Server → Type 0 where
    here : Steps ss ss
    next : {ss' ss'' : List Server} → Steps ss ss' → Step ss' ss'' → Steps ss ss''

  Act-keeps : (s s' : Server) → Act s s' → get s u key ≡ some holder → get s' u key ≡ some holder
  Act-keeps s s' (acquires k value ms t (inr ne) h p e) g =
      rw e (acquire_script_keeps R k key value holder ms t u s h p ne g)
  Act-keeps s s' (acquires k value ms t (inl ne) h p e) g =
      rw e (ground (arith, get-acquire_script R k key value ms t u s h p, eq_iff k key))
  Act-keeps s s' (touches k value ms t (inr ne) h p e) g =
      rw (e, touch_script-eq-acquire_script)
        (acquire_script_keeps R k key value holder ms t u s h p ne g)
  Act-keeps s s' (touches k value ms t (inl ne) h p e) g =
      rw (e, touch_script-eq-acquire_script)
        (ground (arith, get-acquire_script R k key value ms t u s h p, eq_iff k key))
  Act-keeps s s' (deletes k value t (inr ne) h e) g =
      rw e (delete_script_keeps R k key value holder t u s h ne g)
  Act-keeps s s' (deletes k value t (inl ne) h e) g =
      rw e (ground (arith, get-delete_script R k key value t u s h, eq_iff k key))
  Act-keeps s s' (hands_over k value ms t ne h p e) g =
      rw e (ground (arith, get-handover_script R k key value ms t u s h p, eq_iff k key))
  Act-keeps s s' (extends ms t h p later e) g =
      rw (e, touch_script-eq-acquire_script)
        (ground (
          arith,
          get-acquire_script R key key holder ms t u s h p,
          get-earlier s t u key holder h g,
          eq_refl key,
          eq_refl holder,
        ))

  Act-same :
      (s s' : Server)
      → Act s s'
      → same (get s u key) holder ≡ true
      → same (get s' u key) holder ≡ true
  Act-same s s' a h = (same_iff _ holder).1 (Act-keeps s s' a ((same_iff (get s u key) holder).0 h))

  Step-held :
      {ss ss' : List Server} → Step ss ss' → held R u key holder ss ≤ held R u key holder ss'
  Step-held (one {s} {s'} {ss} a) = ground (arith, Act-same s s' a)
  Step-held (other {s} st) = ground (arith, Step-held st)
  Step-held (shuffle p) = le_of_eq (count_if-perm (λ s. same (get s u key) holder) p)

  Step-length : {ss ss' : List Server} → Step ss ss' → length ss ≡ length ss'
  Step-length (one a) = refl
  Step-length (other st) = ap suc (Step-length st)
  Step-length (shuffle p) = length-perm p

  pub Steps-length : {ss ss' : List Server} → Steps ss ss' → length ss ≡ length ss'
  Steps-length here = refl
  Steps-length (next r st) = Steps-length r ∙ Step-length st

  -- Whatever sequence of steps of rivals, of handovers of other keys, of longer extensions by the
  -- holder and of reorderings leads from one list of servers to another, no later than the time
  -- looked at: at least as many servers show the holder for the key afterwards.
  pub Steps-held :
      {ss ss' : List Server} → Steps ss ss' → held R u key holder ss ≤ held R u key holder ss'
  Steps-held here = omega arith
  Steps-held (next r st) = le_trans (Steps-held r) (Step-held st)
