-- ===== src/Driver/Holders/Counted.antt =====
-- What GetHolders merges: each server's goroutine merges a key once if it shows a holder for it.
use election_agent.Prelude.{
  ℕ, zero, suc, ◌+◌, String, ◌≡◌, refl, sym, ap, ◌∙◌, inl, inr, Bool, true, false, not, ◌&&◌, ◌||◌,
  some, List, [], ◌∷◌, ◌++◌, map, arith, ◌==◌, eq_iff, eqb, if◌then◌else◌, Bool-cases, Option-cases,
  length, count_if,
}
use mathlib.Core.List.{flatten, append_assoc}
use mathlib.Core.Option.{some-injective}
use election_agent.Errors.{Error}
use election_agent.Agent.{contains}
use election_agent.Driver.Holders.{
  Scanner, Scan, scanned, failed, index_panic, unfinished, Pairs, page_pairs, put_page, scan_conn,
  after_failure, after_scan, after_block, wait_all,
}

-- Whether a page shows a holder for a key.
abbrev pub page_shows : List String → List String → String → Bool
page_shows (key ∷ keys) (val ∷ vals) k = (key == k && not (val == "")) || page_shows keys vals k
page_shows _ _ k = false

-- Whether a server shows one, on any page from a cursor on.
unfoldable pub conn_shows : (S : Scanner) → String → ℕ → ℕ → String → S.Conn → Bool
conn_shows S match zero cursor k c = false
conn_shows S match (suc fuel) cursor k c =
    let (keys, next, err) = S.scan match cursor c in
    let rest = conn_shows S match fuel next k c in
    page_shows keys (S.mget keys c).0 k || (if eqb next 0 then false else rest)

-- How often a key is merged.
abbrev pub merged : String → Pairs → ℕ
merged k pairs = count_if (λ p. p.0 == k) pairs

abbrev pub once : Bool → ℕ
once b = if b then 1 else 0

pub count_if-append :
    {A : Type 0} (p : A → Bool) (xs ys : List A)
    → count_if p (xs ++ ys) ≡ count_if p xs + count_if p ys
count_if-append p [] ys = omega arith
count_if-append p (x ∷ xs) ys = ground (arith, count_if-append p xs ys)

page_pairs-merged :
    (keys vals set set' : List String) (pairs : Pairs) (k : String)
    → page_pairs keys vals set ≡ some (set', pairs)
    → (contains set' k ≡ (contains set k || page_shows keys vals k))
      × (merged k pairs ≡ once (page_shows keys vals k && not (contains set k)))
unfolding page_pairs
page_pairs-merged [] vals set set' pairs k h = ground arith
page_pairs-merged (key ∷ keys) [] set set' pairs k h = absurd (ground arith)
page_pairs-merged (key ∷ keys) (val ∷ vals) set set' pairs k h =
    let same : (key == k) ≡ true → contains set key ≡ contains set k =
      λ e. ap (contains set) ((eq_iff key k).0 e) in
    elim (Bool-cases (val == "" || contains set key)) [
      | inl e ↦
          let (seen, once_) =
            page_pairs-merged keys vals set set' pairs k (rw (page_pairs, e) at h) in
          (ground (arith, seen, same), ground (arith, once_, same))
      | inr e ↦ elim (Option-cases (page_pairs keys vals (key ∷ set))) [
        | inl f ↦ absurd (ground (arith, rw (page_pairs, e, f) at h))
        | inr ((s, ps), f) ↦
            let (seen, once_) = page_pairs-merged keys vals (key ∷ set) s ps k f in
            let g : some (s, (key, val) ∷ ps) ≡ some (set', pairs) = rw (page_pairs, e, f) at h in
            let eq = some-injective _ _ g in
            (
              ap (λ x. contains x.0 k) (sym eq) ∙ ground (arith, seen, same),
              ap (λ x. merged k x.1) (sym eq) ∙ ground (arith, once_, same),
            )
      ]
    ]

page_shows-nil :
    (keys vals : List String) (k : String) → length keys ≡ 0 → page_shows keys vals k ≡ false
page_shows-nil [] vals k h = refl
page_shows-nil (x ∷ keys) vals k h = absurd (omega (arith, h))

pub merged-append : (k : String) (ps qs : Pairs) → merged k (ps ++ qs) ≡ merged k ps + merged k qs
merged-append k ps qs = count_if-append (λ p. p.0 == k) ps qs

put_page-scanned :
    (page : Pairs) (rest : Scan (List Pairs)) (pages : List Pairs)
    → put_page page rest ≡ scanned pages
    → (later : List Pairs) × (rest ≡ scanned later) × (pages ≡ page ∷ later)
put_page-scanned page (scanned later) pages h = (later, refl, ground arith)
put_page-scanned page (failed e) pages h = absurd (ground arith)
put_page-scanned page index_panic pages h = absurd (ground arith)
put_page-scanned page unfinished pages h = absurd (ground arith)

pub scanned-injective : {A : Type 0} (a b : A) → scanned a ≡ scanned b → a ≡ b
scanned-injective a b h = ap (value_or a) h
  where
    value_or : {B : Type 0} → B → Scan B → B
    value_or d (scanned x) = x
    value_or d _ = d

-- The goroutine of one server merges a key once if a page shows it, and else not.
scan_conn-merged :
    (S : Scanner) (match : String) (fuel cursor : ℕ) (set : List String) (c : S.Conn)
    (pages : List Pairs) (k : String)
    → scan_conn S match fuel cursor set c ≡ scanned pages
    → merged k (flatten pages) ≡ once (conn_shows S match fuel cursor k c && not (contains set k))
unfolding scan_conn conn_shows flatten
scan_conn-merged S match zero cursor set c pages k h = absurd (ground arith)
scan_conn-merged S match (suc fuel) cursor set c pages k h =
    let keys = (S.scan match cursor c).0 in
    let next = (S.scan match cursor c).1 in
    let vals = (S.mget keys c).0 in
    elim (Option-cases (S.scan match cursor c).2) [
      | inr (e, f) ↦ absurd (ground (arith, rw (scan_conn, f) at h))
      | inl f ↦ elim (Bool-cases (eqb (length keys) 0)) [
        | inl g ↦ elim (Bool-cases (eqb next 0)) [
          | inl z ↦
              ap (λ ps. merged k (flatten ps))
                (sym (scanned-injective _ _ (rw (scan_conn, f, g, z) at h)))
              ∙ ground (arith, page_shows-nil keys vals k (ground arith))
          | inr z ↦ ground (
            arith,
            page_shows-nil keys vals k (ground arith),
            scan_conn-merged S match fuel next set c pages k (rw (scan_conn, f, g, z) at h),
          )
        ]
        | inr g ↦ elim (Option-cases (S.mget keys c).1) [
          | inr (e, q) ↦ absurd (ground (arith, rw (scan_conn, f, g, q) at h))
          | inl q ↦ elim (Option-cases (page_pairs keys vals set)) [
            | inl p ↦ absurd (ground (arith, rw (scan_conn, f, g, q, p) at h))
            | inr ((s, ps), p) ↦ elim (Bool-cases (eqb next 0)) [
              | inl z ↦
                  ap (λ x. merged k (flatten x))
                    (sym (scanned-injective _ _ (rw (scan_conn, f, g, q, p, z) at h)))
                  ∙ ground
                      (arith, merged-append k ps [], (page_pairs-merged keys vals set s ps k p).1)
              | inr z ↦
                  let (later, e, eq) =
                    put_page-scanned ps _ pages (rw (scan_conn, f, g, q, p, z) at h) in
                  let (seen, here) = page_pairs-merged keys vals set s ps k p in
                  ap (λ x. merged k (flatten x)) eq
                  ∙ ground (
                    arith,
                    merged-append k ps (flatten later),
                    seen,
                    here,
                    scan_conn-merged S match fuel next s c later k e,
                  )
            ]
          ]
        ]
      ]
    ]

after_scan-scanned :
    {A : Type 0} (a : A) (rest : Scan (List A)) (all : List A)
    → after_scan a rest ≡ scanned all
    → (later : List A) × (rest ≡ scanned later) × (all ≡ a ∷ later)
after_scan-scanned a (scanned later) all h = (later, refl, sym (scanned-injective _ _ h))
after_scan-scanned a (failed e) all h = absurd (ground arith)
after_scan-scanned a index_panic all h = absurd (ground arith)
after_scan-scanned a unfinished all h = absurd (ground arith)

after_failure-not_scanned :
    {A B : Type 0} (e : Error) (s : Scan A) (b : B) → after_failure e s ≡ scanned b → ⊥
after_failure-not_scanned e (scanned x) b h = ground arith
after_failure-not_scanned e (failed x) b h = ground arith
after_failure-not_scanned e index_panic b h = ground arith
after_failure-not_scanned e unfinished b h = ground arith

after_block-not_scanned : {A B : Type 0} (s : Scan A) (b : B) → after_block s ≡ scanned b → ⊥
after_block-not_scanned (scanned x) b h = ground arith
after_block-not_scanned (failed x) b h = ground arith
after_block-not_scanned index_panic b h = ground arith
after_block-not_scanned unfinished b h = ground arith

-- If all scans succeed, their results are listed.
wait_all-cons :
    {A : Type 0} (s : Scan A) (scans : List (Scan A)) (all : List A)
    → wait_all (s ∷ scans) ≡ scanned all
    → (a : A) × (later : List A) × (s ≡ scanned a)
      × (wait_all scans ≡ scanned later)
      × (all ≡ a ∷ later)
unfolding wait_all
wait_all-cons (scanned a) scans all h =
    let (later, e, eq) = after_scan-scanned a _ all h in (a, later, refl, e, eq)
wait_all-cons (failed e) scans all h = absurd (after_failure-not_scanned e _ all h)
wait_all-cons index_panic scans all h = absurd (ground arith)
wait_all-cons unfinished scans all h = absurd (after_block-not_scanned _ all h)

-- The servers that show a holder for a key.
abbrev pub showing : (S : Scanner) → String → ℕ → String → List S.Conn → ℕ
showing S match fuel k cs = count_if (conn_shows S match fuel 0 k) cs

flatten-append :
    {A : Type 0} (xs ys : List (List A)) → flatten (xs ++ ys) ≡ flatten xs ++ flatten ys
unfolding flatten
flatten-append [] ys = refl
flatten-append (x ∷ xs) ys =
    ap (λ z. x ++ z) (flatten-append xs ys) ∙ sym (append_assoc x (flatten xs) (flatten ys))

pub wait_all-merged :
    (S : Scanner) (match : String) (fuel : ℕ) (cs : List S.Conn) (pages : List (List Pairs))
    (k : String)
    → wait_all (map (scan_conn S match fuel 0 []) cs) ≡ scanned pages
    → merged k (flatten (flatten pages)) ≡ showing S match fuel k cs
unfolding wait_all flatten
wait_all-merged S match fuel [] pages k h =
    ap (λ x. merged k (flatten (flatten x))) (sym (scanned-injective _ _ h))
wait_all-merged S match fuel (c ∷ cs) pages k h =
    let (a, later, e, f, eq) = wait_all-cons (scan_conn S match fuel 0 [] c) _ pages h in
    ap (λ x. merged k (flatten (flatten x))) eq
    ∙ ap (merged k) (flatten-append a (flatten later))
    ∙ ground (
      arith,
      merged-append k (flatten a) (flatten (flatten later)),
      scan_conn-merged S match fuel 0 [] c a k e,
      wait_all-merged S match fuel cs later k f,
    )
