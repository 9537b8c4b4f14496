-- ===== src/Merge/Passes/Fair.antt =====
-- No Work is merged twice, however the runs of maybeAutoMerge overlap.
use not_so_simple_software_f.Prelude.{
  ℕ, zero, suc, ◌+◌, ◌≤◌, ◌<◌, ◌≡◌, inl, inr, refl, sym, ap, ◌∙◌, subst, String, Option, none, some,
  List, [], ◌∷◌, map, arith, ◌==◌, ==_iff, ltb, Bool-cases, get_elem?, set,
}
use mathlib.Core.List.{Mem, mem-cons_self, mem-cons_of_mem}
use not_so_simple_software_f.Table.{count_where, All}
use not_so_simple_software_f.Service.Laws.{some-injective}
use not_so_simple_software_f.Worker.Claiming.Counts.{tally, count, count-set}
use not_so_simple_software_f.Merge.Request.{Urls, PullRequest, parse_pull_request_url}
use not_so_simple_software_f.Merge.Rows.{Ledger, is_merged}
use not_so_simple_software_f.Merge.Passes.{
  Service, Pass, beginning, Turn, advance, World, Slot, turn_of, put_turn, run_turns, begin_runs,
}
use not_so_simple_software_f.Merge.Passes.Invariant.{
  is_recording, merges_of, address_of, RefusesMerged, Taken, Placed, Merges, Turned,
}
use not_so_simple_software_f.Merge.Passes.Turns.{advance-Turned}
use not_so_simple_software_f.Merge.Passes.Kept.{Kept, run_turns-Kept}

module _ (urls : Urls) (address : ℕ → Option String) where
  -- What holds between any two turns.
  pub record Fair (w : World) : Type 0 where
    pub addresses : (work : ℕ) → address_of w.ledger.sessions work ≡ address work
    pub placed : All (Placed urls address) w.passes
    pub once : (work : ℕ) → merges_of work w ≤ 1
    pub taken : (work : ℕ) → 0 < merges_of work w → Taken urls address work w.merged

  placed-at :
      (passes : List Pass) (i : ℕ) (p : Pass)
      → All (Placed urls address) passes
      → get_elem? passes i ≡ some p
      → Placed urls address p
  placed-at [] i p all h = cc
  placed-at (q ∷ rest) zero p all h = subst (Placed urls address) (some-injective h) all.0
  placed-at (q ∷ rest) (suc i) p all h = placed-at rest i p all.1 h

  placed-set :
      (passes : List Pass) (i : ℕ) (q : Pass)
      → All (Placed urls address) passes
      → Placed urls address q
      → All (Placed urls address) (set passes i q)
  placed-set [] i q all new = tt
  placed-set (r ∷ rest) zero q all new = (new, all.1)
  placed-set (r ∷ rest) (suc i) q all new = (all.0, placed-set rest i q all.1 new)

  Taken-more :
      (work : ℕ) (merged : List PullRequest) (pr : PullRequest)
      → Taken urls address work merged
      → Taken urls address work (pr ∷ merged)
  Taken-more work merged pr t = record {
    raw = t.raw;
    request = t.request;
    at = t.at;
    parsed = t.parsed;
    is_in = mem-cons_of_mem pr t.is_in;
  }

  -- A Work whose pull request GitHub had not merged has no merge, written or about to be.
  Merges-first :
      {p : Pass} {db : Ledger} {merged : List PullRequest} {t : Turn}
      (m : Merges urls address p db merged t)
      → Taken urls address m.session.id merged
      → ⊥
  Merges-first {merged = merged} m k =
      let raw : k.raw ≡ m.session.pull_request_url = some-injective (sym k.at ∙ m.at) in
      let same : k.request ≡ m.request =
        some-injective (sym k.parsed ∙ ap (parse_pull_request_url urls) raw ∙ m.parsed) in
      m.fresh (subst (λ r. Mem r merged) same k.is_in)

  -- Where a merge has just been made, and only there, there is one more.
  Merges-more :
      (w : World) (i : ℕ) (p : Pass) (t : Turn) (m : Merges urls address p w.ledger w.merged t)
      (work : ℕ)
      → get_elem? w.passes i ≡ some p
      → merges_of work (put_turn i w t) ≡ merges_of work w + tally (m.session.id == work)
  Merges-more w i p t m work at =
      omega (arith, m.one_more work, count-set (is_recording work) w.passes i p t.pass at)

  Merges-once :
      (w : World) (i : ℕ) (p : Pass) (t : Turn) (m : Merges urls address p w.ledger w.merged t)
      (work : ℕ)
      → Fair w
      → get_elem? w.passes i ≡ some p
      → merges_of work (put_turn i w t) ≤ 1
  Merges-once w i p t m work fair at = elim (Bool-cases (m.session.id == work)) [
    | inl mine ↦ elim (Bool-cases (ltb 0 (merges_of work w))) [
      | inl before ↦
          let here : m.session.id ≡ work = (==_iff m.session.id work).0 mine in
          let k = fair.taken work (ground (arith, before)) in
          absurd (Merges-first m (subst (λ n. Taken urls address n w.merged) (sym here) k))
      | inr none_yet ↦
          let zero_yet : merges_of work w ≤ 0 = ground (arith, none_yet) in
          let one : tally (m.session.id == work) ≡ 1 = ap tally mine in
          omega (arith, Merges-more w i p t m work at, zero_yet, one)
    ]
    | inr other ↦
        let none_here : tally (m.session.id == work) ≡ 0 = ap tally other in
        omega (arith, Merges-more w i p t m work at, fair.once work, none_here)
  ]

  Merges-Taken :
      (w : World) (i : ℕ) (p : Pass) (t : Turn) (m : Merges urls address p w.ledger w.merged t)
      (work : ℕ)
      → Fair w
      → get_elem? w.passes i ≡ some p
      → 0 < merges_of work (put_turn i w t)
      → Taken urls address work t.merged
  Merges-Taken w i p t m work fair at h = elim (Bool-cases (m.session.id == work)) [
    | inl mine ↦
        let here : m.session.id ≡ work = (==_iff m.session.id work).0 mine in
        record {
          raw = m.session.pull_request_url;
          request = m.request;
          at = ap address (sym here) ∙ m.at;
          parsed = m.parsed;
          is_in = subst (λ l. Mem m.request l) (sym m.grows) mem-cons_self;
        }
    | inr other ↦
        let none_here : tally (m.session.id == work) ≡ 0 = ap tally other in
        let before : 0 < merges_of work w =
          omega (arith, h, Merges-more w i p t m work at, none_here) in
        subst (Taken urls address work) (sym m.grows)
          (Taken-more work w.merged m.request (fair.taken work before))
  ]

  put_turn-Fair :
      (w : World) (i : ℕ) (p : Pass) (t : Turn)
      → Fair w
      → get_elem? w.passes i ≡ some p
      → Turned urls address p w.ledger w.merged t
      → Fair (put_turn i w t)
  put_turn-Fair w i p t fair at turned = record {
    addresses = λ work. turned.addresses work ∙ fair.addresses work;
    placed = placed-set w.passes i t.pass fair.placed turned.placed;
    once = λ work. elim turned.effect [
      | inl (same, _) ↦
          omega
            (arith, same work, fair.once work, count-set (is_recording work) w.passes i p t.pass at)
      | inr m ↦ Merges-once w i p t m work fair at
    ];
    taken = λ work h. elim turned.effect [
      | inl (same, kept) ↦ subst (Taken urls address work) (sym kept) (
          fair.taken work
            (omega (arith, h, same work, count-set (is_recording work) w.passes i p t.pass at)))
      | inr m ↦ Merges-Taken w i p t m work fair at h
    ];
  }

  module _ (service : Service) (refuses : RefusesMerged service) where
    turn_of-Fair :
        (now i : ℕ) (w : World) (p : Option Pass)
        → Fair w
        → get_elem? w.passes i ≡ p
        → Fair (turn_of urls service now i w p)
    turn_of-Fair now i w none fair at = fair
    turn_of-Fair now i w (some p) fair at =
        put_turn-Fair w i p (advance urls service now p w.ledger w.merged) fair at (
          advance-Turned urls address service now p w.ledger w.merged refuses fair.addresses
            (placed-at w.passes i p fair.placed at))

    pub run_turns-Fair :
        (turns : List Slot) (w : World) → Fair w → Fair (run_turns urls service turns w)
    unfolding run_turns
    run_turns-Fair [] w fair = fair
    run_turns-Fair (t ∷ rest) w fair =
        run_turns-Fair rest _ (turn_of-Fair t.now t.run w (get_elem? w.passes t.run) fair refl)

begun-Placed :
    (urls : Urls) (address : ℕ → Option String) (works : List ℕ)
    → All (Placed urls address) (map (λ work. beginning work) works)
begun-Placed urls address [] = tt
begun-Placed urls address (work ∷ rest) = (tt, begun-Placed urls address rest)

begun-none :
    (work : ℕ) (works : List ℕ) → count (is_recording work) (map (λ w. beginning w) works) ≡ 0
begun-none work [] = refl
begun-none work (w ∷ rest) = omega (arith, begun-none work rest)

-- The rows of merges agree with GitHub: one at most for each Work, whose pull request GitHub has merged.
pub record Agrees (urls : Urls) (db : Ledger) (merged : List PullRequest) : Type 0 where
  pub once : (work : ℕ) → count_where (is_merged work) db.updates ≤ 1
  pub taken :
      (work : ℕ)
      → 0 < count_where (is_merged work) db.updates
      → Taken urls (address_of db.sessions) work merged

-- However the runs of maybeAutoMerge for any Works overlap, turn by turn, on servers that hold a credential,
-- and wherever some of them stop, no Work
-- is recorded as merged twice, and the pull request of a Work that is recorded as merged was merged by
-- GitHub; and no session and no verdict changes but for the notes about refusals. This holds when it held at the start, and GitHub refuses to merge a pull request that it has
-- merged; GitHub's other answers are any.
pub run_turns-MergedOnce :
    (urls : Urls) (service : Service) (works : List ℕ) (turns : List Slot) (db : Ledger)
    (merged : List PullRequest)
    → RefusesMerged service
    → Agrees urls db merged
    → Agrees urls
        (run_turns urls service turns (begin_runs works db merged)).ledger
        (run_turns urls service turns (begin_runs works db merged)).merged
      × Kept db (run_turns urls service turns (begin_runs works db merged)).ledger
run_turns-MergedOnce urls service works turns db merged refuses agrees =
    let start = begin_runs works db merged in
    let fair = run_turns-Fair urls (address_of db.sessions) service refuses turns start (record {
      addresses = λ n. refl;
      placed = begun-Placed urls (address_of db.sessions) works;
      once = λ n. omega (arith, agrees.once n, begun-none n works);
      taken = λ n h. agrees.taken n (omega (arith, h, begun-none n works));
    }) in
    (
      record {
        once = λ n. omega (arith, fair.once n);
        taken = λ n h.
            (let k = fair.taken n (omega (arith, h)) in
              record {
                raw = k.raw;
                request = k.request;
                at = fair.addresses n ∙ k.at;
                parsed = k.parsed;
                is_in = k.is_in;
              });
      },
      run_turns-Kept urls service turns start,
    )
