-- ===== src/Taskflow/Store/Finality/Kept.antt =====
-- The version of a task does not go back, and a cancelled task stays cancelled.
use nsw_core.Common.{
  ℕ, ◌≤◌, String, ◌≡◌, ◌≢◌, refl, ap, ◌∙◌, false, leb, not, ◌&&◌, Option, none, some, inl, inr, ◌∷◌,
  arith, str_eq, str_eq→ne, eq_iff, mem_text, Bool-cases,
}
use nsw_core.Taskflow.Record.{
  StepClaim, state_cancelled, state_completed, state_on_hold, ended_states,
}
use nsw_core.Taskflow.Store.{Row, Db, row_of, new_row, init_task}
use nsw_core.Taskflow.Store.Writes.{Op, claim_step, statement, run_op}
use nsw_core.Taskflow.Store.Rows.{
  applied, changed, AtMostOnce, row_of-run_op, run_op-changed, run_op-AtMostOnce, insert_task-there,
  insert_task-AtMostOnce,
}
use nsw_core.Taskflow.Store.Finality.{
  Bounded, Flights, IsIssued, Later, Moves, Step, Steps, System, landed, claims, reads, runs,
  elsewhere, starts, here, then_step,
}

claim-Moves :
    (c : StepClaim) (r : Row)
    → c.state ≢ state_cancelled
    → Moves r (applied (statement (claim_step c)) r)
unfolding statement
claim-Moves c r n = ground (arith, eq_iff r.state state_cancelled)

on_hold-ne-cancelled : state_on_hold ≢ state_cancelled
on_hold-ne-cancelled = str_eq→ne state_on_hold state_cancelled refl

completed-ne-cancelled : state_completed ≢ state_cancelled
completed-ne-cancelled = str_eq→ne state_completed state_cancelled refl

write-Moves :
    (op : Op) (r : Row) (fl : Flights)
    → Bounded r fl
    → IsIssued op fl
    → Moves r (applied (statement op) r)
unfolding statement mem_text
write-Moves (claim_step c) r fl b i = elim i [ ]
write-Moves (Op.write_render_state step seq state payload) r fl b (i, n) =
    ground (arith, b (step, seq) i)
write-Moves (Op.persist_submission step seq payload) r fl b i = ground (arith, b (step, seq) i)
write-Moves (Op.write_draft step seq payload) r fl b i = ground (arith, b (step, seq) i)
write-Moves Op.cancel_task r fl b i = ground arith
write-Moves (Op.hold_task seq) r fl b i =
    ground (arith, eq_iff r.state state_cancelled, on_hold-ne-cancelled)
write-Moves (Op.complete_task seq) r fl b i =
    ground (arith, eq_iff r.state state_cancelled, completed-ne-cancelled)
write-Moves (Op.claim_task holder at) r fl b i = ground arith
write-Moves (Op.release_task holder) r fl b i = ground arith

Bounded-later : (r q : Row) (fl : Flights) → Moves r q → Bounded r fl → Bounded q fl
Bounded-later r q fl (later, closes) b f i = (
  ground (arith, b f i),
  λ c. elim (closes c) [ inl old ↦ ground (arith, b f i) | inr up ↦ ground (arith, b f i) ],
)

-- What holds of a task's row and of the calls in flight, at every moment.
abbrev pub IsSoundRow : Option Row → Flights → Type 0
IsSoundRow none fl = ⊥
IsSoundRow (some r) fl = Bounded r fl

pub record IsSound (id : String) (s : System) : Type 0 where
  pub once : AtMostOnce id s.db.tasks
  pub sound : IsSoundRow (row_of id s.db.tasks) s.in_flight

abbrev pub LaterRow : Option Row → Option Row → Type 0
LaterRow none q = ⊥
LaterRow (some r) none = ⊥
LaterRow (some r) (some q) = Later r q

run_row :
    (id : String) (op : Op) (db : Db) (r : Row)
    → row_of id db.tasks ≡ some r
    → row_of id (run_op id op db).1.tasks ≡ some (applied (statement op) r)
run_row id op db r there = row_of-run_op id id op db ∙ ground (arith, eq_iff id id)

elsewhere_row :
    (id j : String) (op : Op) (db : Db)
    → j ≢ id
    → row_of id (run_op j op db).1.tasks ≡ row_of id db.tasks
elsewhere_row id j op db n = row_of-run_op j id op db ∙ ground (arith, eq_iff j id)

Bounded-cons :
    (step : String) (seq : ℕ) (r : Row) (fl : Flights)
    → seq ≤ r.seq
    → r.state ≢ state_cancelled
    → Bounded r fl
    → Bounded r ((step, seq) ∷ fl)
Bounded-cons step seq r fl le n b f (inl p) =
    let same : f.1 ≡ seq = ap (λ (x : String × ℕ). x.1) p in (omega arith, λ c. absurd (n c))
Bounded-cons step seq r fl le n b f (inr i) = b f i

-- A claim that matches the row is in flight from there on, and no other.
landed-Bounded :
    (c : StepClaim) (r : Row) (fl : Flights)
    → c.state ≢ state_cancelled
    → Bounded (applied (statement (claim_step c)) r) fl
    → Bounded
        (applied (statement (claim_step c)) r)
        (landed (changed (statement (claim_step c)) (some r)) c fl)
unfolding statement
landed-Bounded c r fl n b =
    elim (Bool-cases (leb r.seq c.seq && not (str_eq r.state state_cancelled))) [
      | inl fits ↦ rw fits (
          Bounded-cons c.step_id c.seq ((statement (claim_step c)).set r) fl (omega arith) n
            (rw fits at b))
      | inr other ↦ rw other (rw other at b)
    ]

open-ne-cancelled : (r : Row) → mem_text r.state ended_states ≡ false → r.state ≢ state_cancelled
unfolding mem_text
open-ne-cancelled r h = ground (arith, eq_iff r.state state_cancelled)

refl_row : (r : Option Row) (fl : Flights) → IsSoundRow r fl → LaterRow r r
refl_row none fl h = h
refl_row (some r) fl h = (omega arith, λ c. c)

-- The row of the task after an operation on it.
abbrev After : String → Op → Db → Flights → Option Row → Type 0
After id op db fl before =
    IsSoundRow (row_of id (run_op id op db).1.tasks) fl
    × LaterRow before (row_of id (run_op id op db).1.tasks)

run-After :
    (id : String) (op : Op) (db : Db) (fl : Flights) (r : Row)
    → row_of id db.tasks ≡ some r
    → Moves r (applied (statement op) r)
    → Bounded (applied (statement op) r) fl
    → After id op db fl (row_of id db.tasks)
run-After id op db fl r there m b = rw (run_row id op db r there, there) (b, m.0)

row_there :
    (row : Option Row) (fl : Flights)
    → IsSoundRow row fl
    → (r : Row) × (row ≡ some r) × Bounded r fl
row_there none fl h = elim h [ ]
row_there (some r) fl h = (r, refl, h)

later_same : (a b : Option Row) (r : Row) → a ≡ some r → b ≡ some r → LaterRow a b
later_same a b r p q = rw (p, q) (omega arith, λ c. c)

Step-IsSound :
    {id : String} {s t : System}
    → Step id s t
    → IsSound id s
    → IsSound id t × LaterRow (row_of id s.db.tasks) (row_of id t.db.tasks)
unfolding init_task
Step-IsSound {id} (claims s c n) i =
    let (r, there, b) = row_there (row_of id s.db.tasks) s.in_flight i.sound in
    let m = claim-Moves c r n in
    let rows : (run_op id (claim_step c) s.db).0 ≡ changed (statement (claim_step c)) (some r) =
      run_op-changed id (claim_step c) s.db i.once
      ∙ ap (changed (statement (claim_step c))) there in
    let (sound, later) =
      run-After id (claim_step c) s.db
        (landed (changed (statement (claim_step c)) (some r)) c s.in_flight) r there m
        (landed-Bounded c r s.in_flight n
          (Bounded-later r (applied (statement (claim_step c)) r) s.in_flight m b)) in
    (
      record { once = run_op-AtMostOnce id id (claim_step c) s.db i.once; sound = rw rows sound },
      later,
    )
Step-IsSound {id} (reads s r step there fine) i = (
  record {
    once = i.once;
    sound =
        let b : Bounded r s.in_flight = rw there at i.sound in
        rw there (Bounded-cons step r.seq r s.in_flight (omega arith) (open-ne-cancelled r fine) b);
  },
  refl_row (row_of id s.db.tasks) s.in_flight i.sound,
)
Step-IsSound {id} (runs s op issued) i =
    let (r, there, b) = row_there (row_of id s.db.tasks) s.in_flight i.sound in
    let m = write-Moves op r s.in_flight b issued in
    let (sound, later) =
      run-After id op s.db s.in_flight r there m
        (Bounded-later r (applied (statement op) r) s.in_flight m b) in
    (record { once = run_op-AtMostOnce id id op s.db i.once; sound = sound }, later)
Step-IsSound {id} (elsewhere s j op n) i = (
  record {
    once = run_op-AtMostOnce id j op s.db i.once;
    sound = rw (elsewhere_row id j op s.db n) i.sound;
  },
  rw (elsewhere_row id j op s.db n) (refl_row (row_of id s.db.tasks) s.in_flight i.sound),
)
Step-IsSound {id} (starts s n) i =
    let (r, there, b) = row_there (row_of id s.db.tasks) s.in_flight i.sound in
    let kept = insert_task-there id (new_row n) s.db.tasks r there in
    (
      record { once = insert_task-AtMostOnce id (new_row n) s.db.tasks i.once; sound = rw kept b },
      later_same (row_of id s.db.tasks) _ r there kept,
    )

LaterRow-trans : (a b c : Option Row) → LaterRow a b → LaterRow b c → LaterRow a c
LaterRow-trans none b c h k = h
LaterRow-trans (some r) none c h k = elim h [ ]
LaterRow-trans (some r) (some q) none h k = k
LaterRow-trans (some r) (some q) (some p) (a, b) (c, d) = (omega arith, λ x. d (b x))

-- Where the writes in flight for a task name steps and versions that are not above its row, and
-- below it where the row is cancelled, so do they after any interleaving of claims, reads, writes
-- of the steps that calls have read or claimed, cancels, holds, completions, retries of InitTask
-- and operations on other tasks, where no claim and no plugin sets the state CANCELLED; the version
-- of the row has not gone back, and a cancelled row is still cancelled.
pub Steps-LaterRow :
    {id : String} {s t : System}
    → IsSound id s
    → Steps id s t
    → IsSound id t × LaterRow (row_of id s.db.tasks) (row_of id t.db.tasks)
Steps-LaterRow {id} {s} i here = (i, refl_row (row_of id s.db.tasks) s.in_flight i.sound)
Steps-LaterRow {id} {s} i (then_step {t} {u} more last) =
    let (j, before) = Steps-LaterRow i more in
    let (k, after) = Step-IsSound last j in
    (
      k,
      LaterRow-trans (row_of id s.db.tasks) (row_of id t.db.tasks) (row_of id u.db.tasks) before
          after,
    )
