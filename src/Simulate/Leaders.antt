-- ===== src/Simulate/Leaders.antt =====
-- The peers of an election keep one leader through the tries of a campaign.
use election_agent.Prelude.{
  ℕ, zero, suc, ◌+◌, ◌≤◌, ◌<◌, String, ◌≡◌, refl, ap, ◌∙◌, inl, inr, Bool, not, ◌&&◌, ◌||◌, Option,
  none, some, List, [], ◌∷◌, ◌==◌, arith, eqb, is_some, length, get_elem?, count_if, Bool-cases,
}
use election_agent.Agent.{active_state}
use election_agent.Simulate.{
  Answer, Failure, Candidate, extend_action, mark_leader, set_leader, dropped, expected,
  campaign_action, peer_campaign_action, campaign_tries, peer_campaign, peers_handovered,
}

abbrev pub leaders : List Candidate → ℕ
leaders ms = count_if (λ m. m.leader) ms

mark_leader-past : (idx i : ℕ) (ms : List Candidate) → idx < i → leaders (mark_leader idx i ms) ≡ 0
unfolding mark_leader
mark_leader-past idx i [] h = refl
mark_leader-past idx i (m ∷ ms) h =
    ground (arith, mark_leader-past idx (suc i) ms (omega (arith, h)))

mark_leader-one :
    (idx i : ℕ) (ms : List Candidate)
    → i ≤ idx
    → idx < i + length ms
    → leaders (mark_leader idx i ms) ≡ 1
unfolding mark_leader
mark_leader-one idx i [] h k = absurd (omega (arith, h, k))
mark_leader-one idx i (m ∷ ms) h k = elim (Bool-cases (eqb i idx)) [
  | inl e ↦ rw e (ap suc (mark_leader-past idx (suc i) ms (ground arith)))
  | inr e ↦ rw e (mark_leader-one idx (suc i) ms (ground arith) (ground arith))
]

length-mark_leader : (idx i : ℕ) (ms : List Candidate) → length (mark_leader idx i ms) ≡ length ms
unfolding mark_leader
length-mark_leader idx i [] = refl
length-mark_leader idx i (m ∷ ms) = ap suc (length-mark_leader idx (suc i) ms)

get_elem?-some :
    {A : Type 0} (xs : List A) (i : ℕ) → i < length xs → (x : A) × (get_elem? xs i ≡ some x)
get_elem?-some [] i h = absurd (omega (arith, h))
get_elem?-some (x ∷ xs) zero h = (x, refl)
get_elem?-some (x ∷ xs) (suc i) h = get_elem?-some xs i (omega (arith, h))

-- The peers have one leader, and are as many as they were.
abbrev pub OneLeader : ℕ → List Candidate → Type 0
OneLeader n peers = (leaders peers ≡ 1) × (length peers ≡ n)

campaign_action-OneLeader :
    (state : String) (fin : Bool) (j : ℕ) (answer : Answer) (peers : List Candidate)
    → j < length peers
    → OneLeader (length peers) peers
    → OneLeader (length peers) (campaign_action state fin j answer peers).0.0
unfolding campaign_action set_leader
campaign_action-OneLeader state fin j answer peers h one =
    elim (Bool-cases (dropped fin answer.1)) [
      | inl d ↦ rw (campaign_action, d) one
      | inr d ↦ elim (Bool-cases (state == active_state)) [
        | inl a ↦ elim (Bool-cases (not (is_some answer.1) && answer.0)) [
          | inl e ↦
              rw (campaign_action, d, a, e)
                (
                  mark_leader-one j 0 peers (omega arith) (omega (arith, h)),
                  length-mark_leader j 0 peers,
                )
          | inr e ↦ rw (campaign_action, d, a, e) one
        ]
        | inr a ↦ elim (Bool-cases (expected state answer)) [
          | inl e ↦ rw (campaign_action, d, e, a) one
          | inr e ↦ rw (campaign_action, d, e, a) one
        ]
      ]
    ]

peer_campaign_action-OneLeader :
    (state : String) (fin : Bool) (j : ℕ) (answer : Answer) (n : ℕ) (peers : List Candidate)
    → j < n
    → OneLeader n peers
    → (out : (List Candidate × ℕ) × Option Failure) × (peer_campaign_action state fin j answer peers
        ≡ some out)
      × OneLeader n out.0.0
unfolding peer_campaign_action
peer_campaign_action-OneLeader state fin j answer n peers h (one, size) =
    let (c, e) = get_elem?-some peers j (omega (arith, h, size)) in
    elim (Bool-cases c.leader) [
      | inl f ↦ (
        ((peers, 0), extend_action state fin answer),
        rw (peer_campaign_action, e, f) refl,
        (one, size),
      )
      | inr f ↦
          let (one', size') =
            campaign_action-OneLeader state fin j answer peers (omega (arith, h, size))
              (one, refl) in
          (
            campaign_action state fin j answer peers,
            rw (peer_campaign_action, e, f) refl,
            (one', size' ∙ size),
          )
    ]

campaign_tries-OneLeader :
    (left : ℕ) (state : String) (fin : Bool) (j : ℕ) (answers : ℕ → Answer) (i n : ℕ)
    (peers : List Candidate)
    → j < n
    → OneLeader n peers
    → (out : (List Candidate × ℕ) × Option Failure) × (campaign_tries left state fin j answers i
          peers
        ≡ some out)
      × OneLeader n out.0.0
unfolding campaign_tries
campaign_tries-OneLeader zero state fin j answers i n peers h one = (((peers, 0), none), refl, one)
campaign_tries-OneLeader (suc left) state fin j answers i n peers h one =
    let (((peers', changes), failure), e, one') =
      peer_campaign_action-OneLeader state fin j (answers i) n peers h one in
    elim (Bool-cases (not (is_some failure) || eqb left 0)) [
      | inl f ↦ (((peers', changes), failure), rw (campaign_tries, e, f) refl, one')
      | inr f ↦
          let (((peers'', more), last), e', one'') =
            campaign_tries-OneLeader left state fin j answers (suc i) n peers' h one' in
          (((peers'', changes + more), last), rw (campaign_tries, e, f, e') refl, one'')
    ]

-- Whatever the answers and the simulated state, the campaign of a candidate whose index is in
-- range, with its tries, does not panic, and peers with one leader have one leader afterwards and
-- are as many as before.
pub peer_campaign-OneLeader :
    (state : String) (fin : Bool) (j : ℕ) (answers : ℕ → Answer) (peers : List Candidate)
    → j < length peers
    → leaders peers ≡ 1
    → (out : (List Candidate × ℕ) × Option Failure) × (peer_campaign state fin j answers peers
        ≡ some out)
      × OneLeader (length peers) out.0.0
unfolding peer_campaign
peer_campaign-OneLeader state fin j answers peers h one =
    elim (Bool-cases (peers_handovered peers)) [
      | inr f ↦ (((peers, 0), none), rw (peer_campaign, f) refl, (one, refl))
      | inl f ↦
          let (out, e, kept) =
            campaign_tries-OneLeader 3 state fin j answers 0 (length peers) peers h (one, refl) in
          (out, rw (peer_campaign, f) e, kept)
    ]
