-- ===== src/Redlock/Votes.antt =====
-- getMostFreqVal and actStringOpAsync of internal/driver/redlock/redlock.go: the value that most
-- of the servers return, and the majority read Get. A Go map is a list of its entries, whose
-- order `range` is free to choose.
pub mod Mode
pub mod Majority
use election_agent.Prelude.{
  ℕ, ◌+◌, String, Option, none, some, List, [], ◌∷◌, ◌++◌, ◌==◌, ltb, if◌then◌else◌,
}
use election_agent.Errors.{Error, errorf, Multierror}

pub record Entry : Type 0 where
  pub val : String
  pub frequency : ℕ

-- freqMap[val], which is 0 for a missing key
abbrev pub frequency_of : List Entry → String → ℕ
frequency_of [] k = 0
frequency_of (e ∷ es) k = if e.val == k then e.frequency else frequency_of es k

-- The other entries, when a key is assigned.
abbrev pub without : String → List Entry → List Entry
without k [] = []
without k (e ∷ es) = let rest = without k es in if k == e.val then rest else e ∷ rest

-- freqMap[val] += 1
abbrev pub bump : String → List Entry → List Entry
bump k es = record { val = k; frequency = frequency_of es k + 1 } ∷ without k es

unfoldable pub count_all : List Entry → List String → List Entry
count_all es [] = es
count_all es (v ∷ vs) = count_all (bump v es) vs

-- The second loop.
unfoldable pub highest : Entry → List Entry → Entry
highest best [] = best
highest best (e ∷ es) = highest (if ltb best.frequency e.frequency then e else best) es

unfoldable pub get_most_freq_val : (List Entry → List Entry) → List String → Entry
unfolding count_all highest
get_most_freq_val range vals =
    highest (record { val = ""; frequency = 0 }) (range (count_all [] vals))

-- The struct `result` of actStringOpAsync, in the order of arrival.
pub record StringReply : Type 0 where
  pub err : Option Error
  pub reply : String

module _ ⦃lib : Multierror⦄ where
  -- The replies without an error, and the errors.
  unfoldable pub gather : List String → Option Error → List StringReply → List String × Option Error
  gather replies err [] = (replies, err)
  gather replies err (r ∷ rs) = elim r.err [
    | none ↦ gather (replies ++ r.reply ∷ []) err rs
    | some e ↦ gather replies (some (lib.append err e)) rs
  ]

  -- What follows the loop.
  unfoldable pub answer : ℕ → Entry → Option Error → ℕ × String × Option Error
  answer quorum best err =
      if ltb best.frequency quorum
      then (best.frequency, best.val, some (errorf "Get fails, the number of the same value" err))
      else (best.frequency, best.val, none)

  unfoldable pub act_string_op :
      (List Entry → List Entry) → ℕ → List StringReply → ℕ × String × Option Error
  unfolding gather answer get_most_freq_val
  act_string_op range quorum rs =
      let (replies, err) = gather [] none rs in answer quorum (get_most_freq_val range replies) err
