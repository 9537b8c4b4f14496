-- ===== src/Store/Lockstep/Same.antt =====
-- Updates that move no state keep the lockstep.
use not_so_simple_software_f.Prelude.{
  ℕ, ◌==◌, ◌≡◌, refl, Bool, true, false, if◌then◌else◌, List, Option, some, none, arith, subst, sym,
  ◌∙◌, ap,
}
use not_so_simple_software_f.Table.{update_where}
use not_so_simple_software_f.Table.Laws.{updated, find_row-update_where, find_row-update_where-none}
use not_so_simple_software_f.Store.Rows.{Db, Attempt, Execution, Session}
use not_so_simple_software_f.Store.Lockstep.{
  agree, execution_at, attempt_at, Linked, Lockstep, LockstepOf,
}

module _ (attempts : List Attempt) where
  -- The row that an attempt read after the update was before it.
  attempt_before :
      (p : Attempt → Bool) (f : Attempt → Attempt) (i : ℕ) (b : Attempt)
      → ((a : Attempt) → (f a).id ≡ a.id)
      → attempt_at (update_where p f attempts) i ≡ some b
      → (a : Attempt) × (attempt_at attempts i ≡ some a) × (updated p f a ≡ b)
  attempt_before p f i b key h = go (attempt_at attempts i) refl
    where
      go :
          (o : Option Attempt)
          → attempt_at attempts i ≡ o
          → (a : Attempt) × (attempt_at attempts i ≡ some a) × (updated p f a ≡ b)
      go none e = absurd (
          ground
            (arith, find_row-update_where-none (λ a. a.id == i) p f attempts (λ a. rw (key a)) e))
      go (some a) e = (
        a,
        e,
        ground (arith, find_row-update_where (λ a. a.id == i) p f attempts a (λ a. rw (key a)) e),
      )

module _ {executions : List Execution} {sessions : List Session}
    {attempts attempts' : List Attempt} where
  -- A link depends on an attempt's state and execution only.
  pub relink :
      {a b : Attempt}
      → a.state ≡ b.state
      → a.execution_id ≡ b.execution_id
      → Linked attempts executions sessions a
      → Linked attempts' executions sessions b
  relink state ref l = record {
    execution = l.execution;
    session = l.session;
    has_execution = ap (execution_at executions) (sym ref) ∙ l.has_execution;
    has_session = l.has_session;
    agreeing = subst (λ x. agree x l.execution.state l.session.state ≡ true) state l.agreeing;
  }

module _ {attempts : List Attempt} {executions : List Execution} {sessions : List Session} where
  pub Lockstep-sessions :
      (p : Session → Bool) (f : Session → Session)
      → ((s : Session) → (f s).id ≡ s.id)
      → ((s : Session) → (f s).state ≡ s.state)
      → LockstepOf attempts executions sessions
      → LockstepOf attempts executions (update_where p f sessions)
  Lockstep-sessions p f key state lock = record {
    linked = λ i a h active.
        let l = lock.linked i a h active in
        record {
          execution = l.execution;
          session = updated p f l.session;
          has_execution = l.has_execution;
          has_session =
              find_row-update_where (λ s. s.id == l.execution.session_id) p f sessions l.session
                (λ s. rw (key s)) l.has_session;
          agreeing = ground (arith, state l.session, l.agreeing);
        };
    one_active = lock.one_active;
    one_execution = lock.one_execution;
  }

  pub Lockstep-attempts :
      (p : Attempt → Bool) (f : Attempt → Attempt)
      → ((a : Attempt) → (f a).id ≡ a.id)
      → ((a : Attempt) → (f a).execution_id ≡ a.execution_id)
      → ((a : Attempt) → (f a).state ≡ a.state)
      → LockstepOf attempts executions sessions
      → LockstepOf (update_where p f attempts) executions sessions
  Lockstep-attempts p f key ref state lock = record {
    linked = λ i b h active.
        let (a, ha, e) = attempt_before attempts p f i b key h in
        relink (ground (arith, state a)) (ground (arith, ref a))
          (lock.linked i a ha (ground (arith, state a)));
    one_active = λ i j b c hb hc ab ac e.
        let (x, hx, ex) = attempt_before attempts p f i b key hb in
        let (y, hy, ey) = attempt_before attempts p f j c key hc in
        lock.one_active i j x y hx hy (ground (arith, state x)) (ground (arith, state y))
          (ground (arith, ref x, ref y));
    one_execution = lock.one_execution;
  }

pub Lockstep-if : (b : Bool) (x y : Db) → Lockstep x → Lockstep y → Lockstep (if b then x else y)
Lockstep-if true x y h k = h
Lockstep-if false x y h k = k
