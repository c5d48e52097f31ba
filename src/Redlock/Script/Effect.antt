-- ===== src/Redlock/Script/Effect.antt =====
-- What the scripts leave in a server, by what GET shows of every key at every later time.
use election_agent.Prelude.{
  ℕ, ◌≤◌, ◌<◌, String, ◌≡◌, refl, ◌∙◌, ◌≢◌, inl, inr, Bool, true, not, ◌&&◌, Option, none, some,
  arith, ◌==◌, eq_iff, if◌then◌else◌, is_some, Bool-cases, Option-cases,
}
use election_agent.Prelude.Int.{pos}
use election_agent.Redis.{RedisServer, alive}
use election_agent.Redlock.Script.{
  is_int, same, acquire_script, touch_script, delete_script, handover_script,
}

-- The holder may take the key: it is free, or already the holder's.
abbrev pub free_for : Option String → String → Bool
free_for none v = true
free_for (some w) v = w == v

module _ (R : RedisServer) where
  open R use {
    Server, get, get-earlier, get-set_px, set_px_nx-reply, get-set_px_nx, pexpire-reply,
    get-pexpire, del-reply, get-del,
  }

  -- With a positive expiry the acquire script answers 0 exactly when the key is held by another
  -- holder.
  pub acquire_script-reply :
      (key value : String) (ms t : ℕ) (s : Server)
      → 0 < ms
      → is_int (acquire_script R key value ms t s).1 (pos 0) ≡ not (free_for (get s t key) value)
  unfolding acquire_script
  acquire_script-reply key value ms t s p = elim (Option-cases (get s t key)) [
    | inl e ↦ rw (e) (rw (set_px_nx-reply s t key value ms p) (rw e))
    | inr (w, e) ↦ elim (Bool-cases (w == value)) [
      | inl q ↦ rw (e, q) (rw (pexpire-reply s t key ms) (rw e))
      | inr q ↦ rw (e, q) (rw (set_px_nx-reply s t key value ms p) (rw e))
    ]
  ]

  -- After the acquire script, at any later time and with a positive expiry, the key shows the
  -- caller until the expiry if it was free or the caller's, and every other key, and a key of
  -- another holder, is as it would have been.
  pub get-acquire_script :
      (key j value : String) (ms t u : ℕ) (s : Server)
      → t ≤ u
      → 0 < ms
      → get (acquire_script R key value ms t s).0 u j
        ≡ (if key == j && free_for (get s t key) value then alive t ms u value else get s u j)
  unfolding acquire_script
  get-acquire_script key j value ms t u s h p = elim (Option-cases (get s t key)) [
    | inl e ↦ rw e (get-set_px_nx s t u key j value ms h p ∙ (rw e))
    | inr (w, e) ↦ elim (Bool-cases (w == value)) [
      | inl q ↦ rw (e, q) (ground (arith, get-pexpire s t u key j w ms h e, eq_iff w value))
      | inr q ↦ rw (e, q) (get-set_px_nx s t u key j value ms h p ∙ (rw e))
    ]
  ]

  -- The touch script does what the acquire script does.
  pub touch_script-eq-acquire_script :
      (key value : String) (ms t : ℕ) (s : Server)
      → touch_script R key value ms t s ≡ acquire_script R key value ms t s
  unfolding acquire_script touch_script
  touch_script-eq-acquire_script key value ms t s = refl

  -- After the delete script, at any later time, the key is gone if the caller held it, and
  -- everything else is as it would have been.
  pub get-delete_script :
      (key j value : String) (t u : ℕ) (s : Server)
      → t ≤ u
      → get (delete_script R key value t s).0 u j
        ≡ (if key == j && same (get s t key) value then none else get s u j)
  unfolding delete_script
  get-delete_script key j value t u s h = elim (Bool-cases (same (get s t key) value)) [
    | inl e ↦ rw e (ground (arith, get-del s t u key j h))
    | inr e ↦ elim (Bool-cases (is_some (get s t key))) [
      | inl q ↦ rw (e, q) (ground arith)
      | inr q ↦ rw (e, q) (ground arith)
    ]
  ]

  -- The handover script gives the key to the new holder, whoever has it.
  pub get-handover_script :
      (key j value : String) (ms t u : ℕ) (s : Server)
      → t ≤ u
      → 0 < ms
      → get (handover_script R key value ms t s).0 u j
        ≡ (if key == j then alive t ms u value else get s u j)
  unfolding handover_script
  get-handover_script key j value ms t u s h p = get-set_px s t u key j value ms h p

  -- A value that is seen now under a rival's script stays.
  pub acquire_script_keeps :
      (key j value holder : String) (ms t u : ℕ) (s : Server)
      → t ≤ u
      → 0 < ms
      → value ≢ holder
      → get s u j ≡ some holder
      → get (acquire_script R key value ms t s).0 u j ≡ some holder
  acquire_script_keeps key j value holder ms t u s h p ne g =
      rw (get-acquire_script key j value ms t u s h p) (elim (Bool-cases (key == j)) [
        | inl e ↦ ground (arith, same_key e, eq_iff holder value)
        | inr e ↦ rw e g
      ])
    where
      same_key : (key == j) ≡ true → get s t key ≡ some holder
      same_key e = get-earlier s t u key holder h (rw ((eq_iff key j).0 e) g)

  pub delete_script_keeps :
      (key j value holder : String) (t u : ℕ) (s : Server)
      → t ≤ u
      → value ≢ holder
      → get s u j ≡ some holder
      → get (delete_script R key value t s).0 u j ≡ some holder
  delete_script_keeps key j value holder t u s h ne g =
      rw (get-delete_script key j value t u s h) (elim (Bool-cases (key == j)) [
        | inl e ↦ ground (arith, same_key e, eq_iff holder value)
        | inr e ↦ rw e g
      ])
    where
      same_key : (key == j) ≡ true → get s t key ≡ some holder
      same_key e = get-earlier s t u key holder h (rw ((eq_iff key j).0 e) g)
