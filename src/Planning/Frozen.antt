-- ===== src/Planning/Frozen.antt =====
-- Each edit keeps the plan of a checkpoint that is frozen or built.
use not_so_simple_software_f.Prelude.{
  ℕ, ◌==◌, ◌≡◌, refl, sym, ap, subst, ◌∙◌, not, Bool, true, false, List, [], ◌∷◌, ◌++◌, Option,
  none, some, String, ℤ, arith, inl, inr, Bool-cases, &&-left, &&-right, ==_iff, if◌then◌else◌,
}
use not_so_simple_software_f.Table.{find_row, update_where, exists_where}
use not_so_simple_software_f.Table.Laws.{find_row-update_where, find_row_test}
use not_so_simple_software_f.Service.{ok}
use not_so_simple_software_f.Service.Laws.{
  >>=-eq-ok, refuse_if-eq-ok, or_not_found-eq-ok, or_refuse-eq-ok, ok-injective,
}
use not_so_simple_software_f.Planning.Keys.{
  Slug, same_text, lowered, trim_space, valid_checkpoint_key, bounded_text,
}
use not_so_simple_software_f.Planning.Edits.{
  PlanningStatus, status_of, transition_allowed, is_frozen, is_settled, PlanningCheckpoint, Plans,
  at_key, checkpoint_of, settled_at, SavePlanningCheckpointRequest, upsert_row,
  upsert_planning_checkpoint, answer_rows, save_planning_answers, transition_rows,
  transition_planning_checkpoint,
}

-- The later checkpoint has the plan of the earlier one.
pub record Kept (before after : PlanningCheckpoint) : Type 0 where
  pub settled : is_settled after.status ≡ true
  pub title : after.title ≡ before.title
  pub summary : after.summary ≡ before.summary
  pub body : after.body ≡ before.body
  pub frozen_at : after.frozen_at ≡ before.frozen_at

pub Kept-same : (c : PlanningCheckpoint) → is_settled c.status ≡ true → Kept c c
Kept-same c settled = record {
  settled = settled;
  title = refl;
  summary = refl;
  body = refl;
  frozen_at = refl;
}

pub Kept-both : (a b c : PlanningCheckpoint) → Kept a b → Kept b c → Kept a c
Kept-both a b c h k = record {
  settled = k.settled;
  title = k.title ∙ h.title;
  summary = k.summary ∙ h.summary;
  body = k.body ∙ h.body;
  frozen_at = k.frozen_at ∙ h.frozen_at;
}

pub same_text-eq : (a b : List ℕ) → same_text a b ≡ true → a ≡ b
same_text-eq [] [] h = refl
same_text-eq [] (y ∷ b) h = cc
same_text-eq (x ∷ a) [] h = cc
same_text-eq (x ∷ a) (y ∷ b) h =
    let heads : x ≡ y = (==_iff x y).0 (&&-left (x == y) _ h) in
    let tails = same_text-eq a b (&&-right (x == y) _ h) in cc

module _ (plans : Plans) (p : Slug) (n : ℕ) (c : PlanningCheckpoint)
    (found : checkpoint_of plans p n ≡ some c) where
  -- Another key that names the same checkpoint is the same key.
  same_key :
      (project : Slug) (number : ℕ)
      → at_key project number c ≡ true
      → checkpoint_of plans project number ≡ some c
  same_key project number h =
      let mine = find_row_test (at_key p n) plans.checkpoints c found in
      let slugs : p ≡ project =
        sym (same_text-eq c.project p (&&-left (same_text c.project p) _ mine))
        ∙ same_text-eq c.project project (&&-left (same_text c.project project) _ h) in
      let numbers : n ≡ number = ground (arith, mine, h) in
      subst (λ q. checkpoint_of plans q number ≡ some c) slugs
        (subst (λ m. checkpoint_of plans p m ≡ some c) numbers found)

  -- An update of one key keeps the plan where it keeps the plan of the row with that key.
  Kept-update :
      (project : Slug) (number : ℕ) (change : PlanningCheckpoint → PlanningCheckpoint)
      → is_settled c.status ≡ true
      → ((x : PlanningCheckpoint) → at_key p n (change x) ≡ at_key p n x)
      → (checkpoint_of plans project number ≡ some c → Kept c (change c))
      → (after : PlanningCheckpoint) × (find_row
            (at_key p n)
            (update_where (at_key project number) change plans.checkpoints)
          ≡ some after)
        × Kept c after
  Kept-update project number change settled key keeps =
      let read =
        find_row-update_where (at_key p n) (at_key project number) change plans.checkpoints c key
          found in
      elim (Bool-cases (at_key project number c)) [
        | inl mine ↦ (
          change c,
          read ∙ ap (λ b. some (if b then change c else c)) mine,
          keeps (same_key project number mine),
        )
        | inr other ↦
            (c, read ∙ ap (λ b. some (if b then change c else c)) other, Kept-same c settled)
      ]

pub find_row-append {ℓ} :
    {R : Type ℓ} (k : R → Bool) (rows more : List R) (r : R)
    → find_row k rows ≡ some r
    → find_row k (rows ++ more) ≡ some r
find_row-append k [] more r h = cc
find_row-append k (x ∷ rows) more r h = ground (arith, find_row-append k rows more r)

-- A settled checkpoint moves to `built` only, so that it is not frozen again.
settled_move :
    (from to : PlanningStatus)
    → is_settled from ≡ true
    → transition_allowed from to ≡ true
    → (is_settled to ≡ true) × (is_frozen to ≡ false)
settled_move from to settled allowed = ground arith

-- What a step makes of one settled checkpoint.
abbrev pub StillKept : Plans → Slug → ℕ → PlanningCheckpoint → Type 0
StillKept plans p n c =
    (after : PlanningCheckpoint) × (checkpoint_of plans p n ≡ some after) × Kept c after

module _ (plans : Plans) (p : Slug) (n : ℕ) (c : PlanningCheckpoint)
    (found : checkpoint_of plans p n ≡ some c) (settled : is_settled c.status ≡ true) where
  upsert_row-Kept :
      (now : ℕ) (project : Slug) (number : ℕ) (text : SavePlanningCheckpointRequest)
      (there : Option PlanningCheckpoint)
      → (checkpoint_of plans project number ≡ there)
      → settled_at there ≡ false
      → StillKept (upsert_row now project number text there plans) p n c
  unfolding upsert_row
  upsert_row-Kept now project number text none there unsettled =
      (c, find_row-append (at_key p n) plans.checkpoints _ c found, Kept-same c settled)
  upsert_row-Kept now project number text (some d) there unsettled =
      Kept-update plans p n c found project number _ settled (λ x. refl)
        (λ mine. absurd (ground (arith, mine, there, unsettled, settled)))

  pub upsert-Kept :
      (now : ℕ) (project : String) (number : ℤ) (input : SavePlanningCheckpointRequest)
      (after : Plans)
      → upsert_planning_checkpoint now project number input plans ≡ ok after
      → StillKept after p n c
  unfolding upsert_planning_checkpoint
  upsert-Kept now project number input after h =
      let (key, _, h1) = >>=-eq-ok (valid_checkpoint_key project number) _ h in
      let (title, _, h2) = >>=-eq-ok (bounded_text input.title 200 _) _ h1 in
      let (summary, _, h3) = >>=-eq-ok (bounded_text input.summary 240 _) _ h2 in
      let (body, _, h4) = >>=-eq-ok (bounded_text input.body 131072 _) _ h3 in
      let (_, h5) =
        refuse_if-eq-ok (not (exists_where (λ q. same_text q key.0) plans.projects)) _ _ h4 in
      let (unsettled, h6) = refuse_if-eq-ok (settled_at (checkpoint_of plans key.0 key.1)) _ _ h5 in
      subst (λ d. StillKept d p n c) (ok-injective h6)
        (upsert_row-Kept now key.0 key.1 _ (checkpoint_of plans key.0 key.1) refl unsettled)

  pub answers-Kept :
      (now : ℕ) (project : String) (number : ℤ) (input : String) (after : Plans)
      → save_planning_answers now project number input plans ≡ ok after
      → StillKept after p n c
  unfolding save_planning_answers answer_rows
  answers-Kept now project number input after h =
      let (key, _, h1) = >>=-eq-ok (valid_checkpoint_key project number) _ h in
      let (answers, _, h2) = >>=-eq-ok (bounded_text input 65536 _) _ h1 in
      let (_, _, h3) = or_not_found-eq-ok (checkpoint_of plans key.0 key.1) _ h2 in
      subst (λ d. StillKept d p n c) (ok-injective h3)
        (Kept-update plans p n c found key.0 key.1 _ settled (λ x. refl)
          (λ mine. record {
            settled = settled;
            title = refl;
            summary = refl;
            body = refl;
            frozen_at = refl;
          }))

  pub transition-Kept :
      (now : ℕ) (project : String) (number : ℤ) (status : String) (after : Plans)
      → transition_planning_checkpoint now project number status plans ≡ ok after
      → StillKept after p n c
  unfolding transition_planning_checkpoint transition_rows
  transition-Kept now project number status after h =
      let (key, _, h1) = >>=-eq-ok (valid_checkpoint_key project number) _ h in
      let (to, _, h2) = or_refuse-eq-ok (status_of (lowered (trim_space status))) _ _ h1 in
      let (current, hc, h3) = or_not_found-eq-ok (checkpoint_of plans key.0 key.1) _ h2 in
      let (allowed, h4) = refuse_if-eq-ok (not (transition_allowed current.status to)) _ _ h3 in
      let moves : checkpoint_of plans key.0 key.1 ≡ some c → transition_allowed c.status to ≡ true =
        λ mine. ground (arith, mine, hc, allowed) in
      subst (λ d. StillKept d p n c) (ok-injective h4)
        (Kept-update plans p n c found key.0 key.1 _ settled (λ x. refl)
          (λ mine. record {
            settled = (settled_move c.status to settled (moves mine)).0;
            title = refl;
            summary = refl;
            body = refl;
            frozen_at =
                ap (λ b. if b then some now else c.frozen_at)
                  (settled_move c.status to settled (moves mine)).1;
          }))
