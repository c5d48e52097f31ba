-- ===== src/Redlock/Store.antt =====
-- The key-value operations of internal/driver/redlock/redlock.go over the interface Conn of conn.go
-- beside it: Ping, Get, Set, SetBool, MGet and MSet. An index out of range is a panic, `none`.
pub mod Held
pub mod Register
pub mod Columns
use election_agent.Prelude.{
  ℕ, suc, ◌+◌, ◌/◌, ◌%◌, String, Bool, false, not, Option, none, some, List, [], ◌∷◌, map, ◌==◌,
  ltb, leb, eqb, if◌then◌else◌, is_some, length, get_elem?, count_if,
}
use election_agent.Errors.{Error, text, errorf, Multierror}
use election_agent.Redlock.Quorum.{Reply, act_status_op}
use election_agent.Redlock.Votes.{Entry, StringReply, get_most_freq_val, act_string_op}
use election_agent.Redlock.Shards.{RedLock, get_conns, get_master_conns, get_all_conns}

-- The methods of Conn that the operations call, each of which may change the servers.
pub record Clients : Type 1 where
  pub Conn : Type 0
  pub World : Type 0
  pub ping : Conn → World → World × (Bool × Option Error)
  pub get : String → Conn → World → World × (String × Option Error)
  pub set : String → String → Conn → World → World × (Bool × Option Error)
  pub mget : List String → Conn → World → World × (List String × Option Error)
  pub mset : List String → Conn → World → World × (Bool × Option Error)

-- What a call leaves to chance: the index into the pool of connections, the order in which the
-- replies arrive and the order of range.
pub record Turn : Type 1 where
  pub idx : ℕ
  pub arrival : {A : Type 0} → List A → List A
  pub range : List Entry → List Entry

-- BoolStr and IsBoolStrTrue
unfoldable pub bool_str : Bool → String
bool_str val = if val then "1" else "0"

unfoldable pub is_bool_str_true : String → Bool
is_bool_str_true val = val == "1"

-- The struct `result` of each connection, with its node.
abbrev pub number_replies : ℕ → List (Bool × Option Error) → List Reply
number_replies node [] = []
number_replies node ((ok, e) ∷ rs) =
    record { node = node; status_ok = ok; err = e } ∷ number_replies (suc node) rs

abbrev pub string_reply : String × Option Error → StringReply
string_reply (v, e) = record { err = e; reply = v }

-- replies[j][i] for the reply of connection i
abbrev pub mget_cell : ℕ → List String × Option Error → Option String
mget_cell j (reply, some e) = some ""
mget_cell j (reply, none) = get_elem? reply j

-- replies[j]
unfoldable pub mget_column : ℕ → List (List String × Option Error) → Option (List String)
mget_column j [] = some []
mget_column j (r ∷ rs) =
    let rest = mget_column j rs in
    elim (mget_cell j r) [
      | none ↦ none
      | some v ↦ elim rest [ none ↦ none | some vs ↦ some (v ∷ vs) ]
    ]

-- The rows of replies, from index j on.
unfoldable pub mget_columns :
    ℕ → List String → List (List String × Option Error) → Option (List (List String))
unfolding mget_column
mget_columns j [] rs = some []
mget_columns j (k ∷ ks) rs =
    let rest = mget_columns (suc j) ks rs in
    elim (mget_column j rs) [
      | none ↦ none
      | some col ↦ elim rest [ none ↦ none | some cols ↦ some (col ∷ cols) ]
    ]

-- vals[i]
unfoldable pub mget_val : (List Entry → List Entry) → ℕ → List String → String
mget_val range quorum column =
    let best = get_most_freq_val range column in if leb quorum best.frequency then best.val else ""

abbrev pub answered : List String × Option Error → Bool
answered (reply, err) = not (is_some err)

abbrev pub get_empty : String × Option Error
get_empty = ("", some (text "The redis key is empty"))

abbrev pub set_empty : ℕ × Option Error
set_empty = (0, some (text "Set: the key is empty"))

abbrev pub mset_empty : ℕ × Option Error
mset_empty = (0, some (text "MSet: the pairs is empty"))

abbrev pub mset_odd : ℕ × Option Error
mset_odd = (0, some (text "MSet: the length of pairs is not an odd number"))

module _ ⦃lib : Multierror⦄ where
  -- The variable err of MGet after the loop.
  mget_errors : Option Error → List (List String × Option Error) → Option Error
  mget_errors err [] = err
  mget_errors err ((_, none) ∷ rs) = mget_errors err rs
  mget_errors err ((_, some e) ∷ rs) = mget_errors (some (lib.append err e)) rs

  -- The test of n against the quorum.
  unfoldable pub mget_end :
      ℕ → List (List String × Option Error) → List String → List String × Option Error
  unfolding mget_errors
  mget_end quorum rs vals =
      if ltb (count_if answered rs) quorum
      then ([], some (errorf "Get fails, the number of success operations" (mget_errors none rs)))
      else (vals, none)

  -- MGet after the requests.
  unfoldable pub mget_result :
      (List Entry → List Entry)
      → ℕ
      → List String
      → List (List String × Option Error)
      → Option (List String × Option Error)
  unfolding mget_columns mget_end mget_val
  mget_result range quorum keys rs = elim (mget_columns 0 keys rs) [
    | none ↦ none
    | some columns ↦ some (mget_end quorum rs (map (mget_val range quorum) columns))
  ]

module _ (K : Clients) where
  open K use {Conn, World}

  -- One goroutine for each connection.
  unfoldable pub act_all :
      {A : Type 0} → (Conn → World → World × A) → List Conn → World → World × List A
  act_all act [] w = (w, [])
  act_all act (c ∷ cs) w =
      let (w1, a) = act c w in let (w2, rest) = act_all act cs w1 in (w2, a ∷ rest)

module _ (K : Clients) ⦃lib : Multierror⦄ where
  open K use {Conn, World, ping, get, set, mget, mset}

  -- actStatusOpAsync and actStringOpAsync on connections and a quorum
  unfoldable pub status_on :
      Turn
      → (Conn → World → World × (Bool × Option Error))
      → List Conn × ℕ
      → World
      → World × (ℕ × Option Error)
  unfolding act_all
  status_on t act (conns, quorum) w =
      let (w', rs) = act_all K act conns w in
      (w', act_status_op false quorum (t.arrival (number_replies 0 rs)))

  unfoldable pub string_on :
      Turn
      → (Conn → World → World × (String × Option Error))
      → List Conn × ℕ
      → World
      → World × (ℕ × String × Option Error)
  unfolding act_all
  string_on t act (conns, quorum) w =
      let (w', rs) = act_all K act conns w in
      (w', act_string_op t.range quorum (t.arrival (map string_reply rs)))

  -- Ping
  unfoldable pub ping_all : Turn → RedLock Conn → World → Option (World × (ℕ × Option Error))
  unfolding get_all_conns status_on
  ping_all t r w = elim (get_all_conns Conn t.idx r) [
    | none ↦ none
    | some conns ↦ some (status_on t ping (conns, length conns / 2 + 1) w)
  ]

  -- Get
  unfoldable pub get_val :
      Turn → RedLock Conn → String → World → Option (World × (String × Option Error))
  unfolding string_on
  get_val t r key w = if key == "" then some (w, get_empty) else elim (get_conns Conn t.idx r key) [
    | none ↦ none
    | some picked ↦
        let (w', (_, val, err)) = string_on t (get key) picked w in some (w', (val, err))
  ]

  -- Set
  unfoldable pub set_val :
      Turn → RedLock Conn → String → String → World → Option (World × (ℕ × Option Error))
  unfolding status_on
  set_val t r key value w =
      if key == "" then some (w, set_empty) else elim (get_conns Conn t.idx r key) [
        | none ↦ none
        | some picked ↦ some (status_on t (set key value) picked w)
      ]

  -- SetBool
  unfoldable pub set_bool :
      Turn → RedLock Conn → String → Bool → World → Option (World × (ℕ × Option Error))
  unfolding status_on bool_str
  set_bool t r key value w =
      if key == ""
      then some (w, (0, some (text "SetBool: the key for is empty")))
      else elim (get_conns Conn t.idx r key) [
        | none ↦ none
        | some picked ↦ some (status_on t (set key (bool_str value)) picked w)
      ]

  -- MGet
  unfoldable pub mget_vals :
      Turn → RedLock Conn → List String → World → Option (World × (List String × Option Error))
  unfolding act_all mget_result
  mget_vals t r keys w = elim (get_master_conns Conn t.idx r) [
    | none ↦ none
    | some (conns, quorum) ↦
        let (w', rs) = act_all K (mget keys) conns w in
        elim (mget_result t.range quorum keys (t.arrival rs)) [
          | none ↦ none
          | some out ↦ some (w', out)
        ]
  ]

  -- MSet
  unfoldable pub mset_vals :
      Turn → RedLock Conn → List String → World → Option (World × (ℕ × Option Error))
  unfolding status_on
  mset_vals t r pairs w =
      if eqb (length pairs) 0
      then some (w, mset_empty)
      else if not (eqb (length pairs % 2) 0)
      then some (w, mset_odd)
      else elim (get_master_conns Conn t.idx r) [
        | none ↦ none
        | some picked ↦ some (status_on t (mset pairs) picked w)
      ]
