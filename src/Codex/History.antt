-- ===== src/Codex/History.antt =====
-- The histories of a run's rows: transactions of internal/store/postgres/codex_controls.go, one after
-- another and whatever becomes of each commit, and all that others do to the rows in between.
use engineering_platform.Session
use engineering_platform.Codex.Database.{
  CodexRow, Commit, Database, Digesting, Outcome, acknowledged, end, settle_commit, unacknowledged,
  unchanged, written,
}
use engineering_platform.Codex.{
  ControlBinding, ControlClose, ControlInput, ControlKind, ControlSettlement,
}
use engineering_platform.Codex.Transactions.{
  bind_control, claim_control, close_control, queue_control, settle_control,
}
use engineering_platform.Codex.Rules.{Holds}
use engineering_platform.Codex.Changes.{Change, Writes}
use engineering_platform.Codex.Written.{
  bind_control-Writes, claim_control-Writes, close_control-Writes, queue_control-Writes,
  settle_control-Writes,
}
use engineering_platform.Prelude.{
  Result, String, [], err, false, none, ok, some, true, ℕ, ◌<◌, ◌≡◌, ◌≤◌,
}

-- What other transactions leave alone: they write neither runtimes nor live controls, a run keeps its
-- one execution, and the number of a session's last command does not fall.
pub record Drift (db db' : Database) : Type 0 where
  pub runtime_kept : db'.runtime ≡ db.runtime
  pub commands_kept : db'.commands ≡ db.commands
  pub execution_kept :
      (row : CodexRow)
      → db.execution ≡ some row
      → (row' : CodexRow) × (db'.execution ≡ some row') × (row'.token ≡ row.token)
  pub session_rises :
      (s' : Session.Session)
      → db'.session ≡ some s'
      → (s : Session.Session) × (db.session ≡ some s) × (s.last_sequence ≤ s'.last_sequence)

-- A history up to a reading of the clock, from rows without a runtime.
pub data History (h : Digesting) : ℕ → Database → Type 0 where
  start : (now : ℕ) (db : Database) → db.runtime ≡ none → db.commands ≡ [] → History h now db
  binds :
      {past now : ℕ} {db : Database}
      → History h past db
      → past ≤ now
      → (c : Commit) (subject : String) (b : ControlBinding) (locked : ℕ)
      → History h now (end c (bind_control h subject b locked db) db).1
  queues :
      {past now : ℕ} {db : Database}
      → History h past db
      → past ≤ now
      → 0 < now
      → (c : Commit) (run_id : String) (kind : ControlKind) (i : ControlInput) (locked : ℕ)
      → History h now (end c (queue_control h run_id kind i locked now db) db).1
  claims :
      {past now : ℕ} {db : Database}
      → History h past db
      → past ≤ now
      → (c : Commit) (subject : String) (b : ControlBinding) (locked : ℕ)
      → History h now (end c (claim_control h subject b locked now db) db).1
  settles :
      {past now : ℕ} {db : Database}
      → History h past db
      → past ≤ now
      → (c : Commit) (subject : String) (r : ControlSettlement)
      → History h now (end c (settle_control h subject r now db) db).1
  closes :
      {past now : ℕ} {db : Database}
      → History h past db
      → past ≤ now
      → (c : Commit) (subject : String) (close : ControlClose) (clock : ℕ → ℕ)
      → History h now (end c (close_control h subject close clock db) db).1
  others :
      {past now : ℕ} {db db' : Database}
      → History h past db
      → past ≤ now
      → Drift db db'
      → History h now db'

module _ (h : Digesting) (P : Database → Type 0) where
  commit_cases :
      (c : Commit) {A : Type 0} (a : A) (db db' : Database)
      → P db
      → P db'
      → P (settle_commit c a db db').1
  commit_cases acknowledged a db db' p p' = p'
  commit_cases (unacknowledged true) a db db' p p' = p'
  commit_cases (unacknowledged false) a db db' p p' = p

  -- Whatever becomes of the commit, the rows are as they were or have the change.
  end_cases :
      {A : Type 0} (c : Commit) (now : ℕ) (db : Database) (r : Result (Outcome A))
      → Holds (Writes h now db) r
      → P db
      → ((db' : Database) → Change h now db db' → P db')
      → P (end c r db).1
  end_cases c now db (err e) w p k = p
  end_cases c now db (ok (unchanged a)) w p k = p
  end_cases c now db (ok (written a db')) w p k = commit_cases c a db db' p (k db' w)

-- An invariant is kept by every change and by what others do.
module _ (h : Digesting) (I : ℕ → Database → Type 0)
    (begins : (now : ℕ) (db : Database) → db.runtime ≡ none → db.commands ≡ [] → I now db)
    (ages : (past now : ℕ) (db : Database) → past ≤ now → I past db → I now db)
    (changes : (now : ℕ) (db db' : Database) → I now db → Change h now db db' → I now db')
    (drifts : (now : ℕ) (db db' : Database) → I now db → Drift db db' → I now db') where
  pub History-invariant : {now : ℕ} {db : Database} → History h now db → I now db
  History-invariant (start now db none' nothing) = begins now db none' nothing
  History-invariant (binds {past} {now} {db} s t c subject b locked) =
      let i = ages past now db t (History-invariant s) in
      end_cases h (I now) c now db _ (bind_control-Writes h now db subject b locked).holds i
        (λ db'. changes now db db' i)
  History-invariant (queues {past} {now} {db} s t pos c run_id kind i locked) =
      let known = ages past now db t (History-invariant s) in
      end_cases h (I now) c now db _ (queue_control-Writes h now db run_id kind i locked pos).holds
        known (λ db'. changes now db db' known)
  History-invariant (claims {past} {now} {db} s t c subject b locked) =
      let known = ages past now db t (History-invariant s) in
      end_cases h (I now) c now db _ (claim_control-Writes h now db subject b locked).holds known
        (λ db'. changes now db db' known)
  History-invariant (settles {past} {now} {db} s t c subject r) =
      let known = ages past now db t (History-invariant s) in
      end_cases h (I now) c now db _ (settle_control-Writes h now db subject r).holds known
        (λ db'. changes now db db' known)
  History-invariant (closes {past} {now} {db} s t c subject close clock) =
      let known = ages past now db t (History-invariant s) in
      end_cases h (I now) c now db _ (close_control-Writes h now db subject close clock).holds known
        (λ db'. changes now db db' known)
  History-invariant (others {past} {now} {db} {db'} s t d) =
      drifts now db db' (ages past now db t (History-invariant s)) d
