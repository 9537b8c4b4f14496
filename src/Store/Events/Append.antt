-- ===== src/Store/Events/Append.antt =====
-- What an AppendEvents that succeeded did: it added rows to the log and changed nothing else.
use not_so_simple_software_f.Prelude.{
  ℕ, ◌≡◌, ◌≤◌, sym, ap, subst, ◌++◌, ◌||◌, ◌==◌, ltb, List, none, [], arith, length,
}
use not_so_simple_software_f.Service.{ok}
use not_so_simple_software_f.Service.Laws.{>>=-eq-ok, >>-eq-ok, refuse_if-eq-ok, ok-injective}
use not_so_simple_software_f.Store.Rows.{Db, Env}
use not_so_simple_software_f.Store.Lease.{LeaseState, load_lease, verify_active_lease}
use not_so_simple_software_f.Store.Lease.Laws.{
  Holds, Loaded, verify_active_lease-Holds, load_lease-Loaded,
}
use not_so_simple_software_f.Store.Lockstep.{Lockstep}
use not_so_simple_software_f.Store.Events.{
  Json, EventBatchRequest, Checked, Pending, check_events, add_events, event_rows, log,
  stored_bytes, max_sequence, append_events, max_attempt_event_bytes, max_events_per_batch,
  max_event_batch_bytes,
}

pub record Appended (json : Json) (env : Env) (id : ℕ) (input : EventBatchRequest) (db after : Db)
    : Type 0 where
  pub checked : List Checked
  pub lease : LeaseState
  pub pending : Pending
  pub checks : check_events json none input.events ≡ ok checked
  pub loaded : Loaded db id lease
  pub holds : Holds env lease input.lease_token
  pub added :
      add_events (log db id) checked (record {
        bytes = stored_bytes (log db id);
        highest = max_sequence (log db id);
        fresh = [];
      })
      ≡ ok pending
  pub within_budget : pending.bytes ≤ max_attempt_event_bytes
  pub written : after ≡ record db { events = db.events ++ event_rows env id pending.fresh }

pub append_events-Appended :
    (json : Json) (env : Env) (id : ℕ) (input : EventBatchRequest) (db after : Db)
    → append_events json env id input db ≡ ok after
    → Appended json env id input db after
unfolding append_events
append_events-Appended json env id input db after h =
    let (_, h1) =
      refuse_if-eq-ok (length input.events == 0 || ltb max_events_per_batch (length input.events)) _
        _ h in
    let (_, h2) = refuse_if-eq-ok (ltb max_event_batch_bytes (json.encoded_len input)) _ _ h1 in
    let (checked, hc, h3) = >>=-eq-ok (check_events json none input.events) _ h2 in
    let (lease, hl, h4) = >>=-eq-ok (load_lease db id) _ h3 in
    let (hv, h5) = >>-eq-ok (verify_active_lease env lease input.lease_token) _ h4 in
    let (pending, hp, h6) = >>=-eq-ok (add_events (log db id) checked _) _ h5 in
    let (hb, h7) = refuse_if-eq-ok (ltb max_attempt_event_bytes pending.bytes) _ _ h6 in
    record {
      checked = checked;
      lease = lease;
      pending = pending;
      checks = hc;
      loaded = load_lease-Loaded db id lease hl;
      holds = verify_active_lease-Holds env lease input.lease_token hv;
      added = hp;
      within_budget = ground (arith, hb);
      written = sym (ok-injective h7);
    }

-- The tables of the attempt lifecycle stay as they are.
pub append_events-attempts :
    (json : Json) (env : Env) (id : ℕ) (input : EventBatchRequest) (db after : Db)
    → append_events json env id input db ≡ ok after
    → after.attempts ≡ db.attempts
append_events-attempts json env id input db after h =
    ap (λ d. d.attempts) (append_events-Appended json env id input db after h).written

pub append_events-Lockstep :
    (json : Json) (env : Env) (id : ℕ) (input : EventBatchRequest) (db after : Db)
    → Lockstep db
    → append_events json env id input db ≡ ok after
    → Lockstep after
append_events-Lockstep json env id input db after lock h =
    subst Lockstep (sym (append_events-Appended json env id input db after h).written) lock
