-- ===== src/Lock/Hold/Held.antt =====
-- lock/lock.go: the invariant of Hold, and the steps of its heartbeat.
use go_core.Prelude.{
  ℕ, ◌+◌, ◌≤◌, String, string_eq, ◌≡◌, refl, sym, ◌∙◌, ap, Bool, true, false, List, arith,
  Bool-cases, inl, inr,
}
use go_core.Lock.{Outcome, returned, failed, Moment, locker_refresh}
use go_core.Lock.Leases.{Leased}
use go_core.Lock.Hold.{
  Holding, Beat, starting, waiting, asking, answered, stopped, Phase, running, ended, cancelled_run,
  finished, HoldAnswer, Verdict, goes_on, returns, loses, judged, lease_after, Foreign,
}
use go_core.Lock.Hold.Clients.{Gone}
use go_core.Lock.Hold.Granted.{refresh-Leased}
use go_core.Lock.Hold.Standing.{refresh_stands}

-- Hold has not given the key back.
abbrev pub holds : Phase → Bool
holds running = true
holds (ended a) = true
holds (cancelled_run a) = true
holds (finished a done) = false

abbrev is_stopped : Beat → Bool
is_stopped stopped = true
is_stopped starting = false
is_stopped (waiting until) = false
is_stopped (asking now until) = false
is_stopped (answered now until answer) = false

moving : (b : Beat) {c : Beat} → b ≡ c → is_stopped c ≡ false → b ≡ stopped → ⊥
moving b same moves stops = absurd (ground (arith, ap is_stopped (sym same ∙ stops), moves))

module _ (found_rows : Bool) (key owner : String) (ttl : ℕ) where
  pub record Held (s : Holding) : Type 0 where
    pub clocked : s.lease ≤ s.clock + ttl
    pub kept : holds s.phase ≡ true → s.clock ≤ s.lease → Leased key owner s.lease s.table
    pub lost_stops : s.lost ≡ true → (s.cancelled ≡ true) × (s.beat ≡ stopped)
    pub finished_stops : holds s.phase ≡ false → s.beat ≡ stopped
    pub gone : (a : HoldAnswer) → s.phase ≡ finished a true → Gone key owner s.table

  -- While the heartbeat moves, nothing is lost and the key is not given back.
  moves_on :
      (s : Holding) {b : Beat}
      → Held s
      → s.beat ≡ b
      → is_stopped b ≡ false
      → (s.lost ≡ false) × (holds s.phase ≡ true)
  moves_on s {b} held same moves = (
    elim (Bool-cases s.lost) [
      | inr not_lost ↦ not_lost
      | inl gone ↦ absurd (moving s.beat same moves (held.lost_stops gone).1)
    ],
    elim (Bool-cases (holds s.phase)) [
      | inl still ↦ still
      | inr over ↦ absurd (moving s.beat same moves (held.finished_stops over))
    ],
  )

  not_finished :
      (s : Holding) (a : HoldAnswer) {A : Type 0}
      → holds s.phase ≡ true
      → s.phase ≡ finished a true
      → A
  not_finished s a still over = absurd (ground (arith, ap holds over, still))

  -- The heartbeat takes a step that changes nothing else.
  pub beats-Held :
      (s : Holding) (b c : Beat)
      → Held s
      → s.beat ≡ b
      → is_stopped b ≡ false
      → Held (record s { beat = c })
  beats-Held s b c held same moves =
      let (not_lost, still) = moves_on s held same moves in
      record {
        clocked = held.clocked;
        kept = held.kept;
        lost_stops = λ lost. absurd (ground (arith, lost, not_lost));
        finished_stops = λ over. absurd (ground (arith, over, still));
        gone = held.gone;
      }

  pub judged-Held :
      (s : Holding) (b : Beat) (v : Verdict)
      → Held s
      → s.beat ≡ b
      → is_stopped b ≡ false
      → Held (judged v s)
  judged-Held s b (goes_on until) held same moves = beats-Held s b (waiting until) held same moves
  judged-Held s b returns held same moves = beats-Held s b stopped held same moves
  judged-Held s b loses held same moves =
      let (not_lost, still) = moves_on s held same moves in
      record {
        clocked = held.clocked;
        kept = held.kept;
        lost_stops = λ lost. (refl, refl);
        finished_stops = λ over. absurd (ground (arith, over, still));
        gone = held.gone;
      }

  -- The refresh and its answer.
  pub refreshed-Held :
      (s : Holding) (now until at clock : ℕ) (later : List Moment) (answer : Outcome Bool)
      → Held s
      → s.beat ≡ asking now until
      → s.clock ≤ at
      → at ≤ clock
      → Foreign key owner clock later
      → (locker_refresh found_rows key owner ttl at later s.table).0 ≡ answer
      → Held (record s {
        clock = clock;
        table = (locker_refresh found_rows key owner ttl at later s.table).2;
        beat = answered now until answer;
        lease = lease_after answer (at + ttl) s.lease;
      })
  refreshed-Held s now until at clock later answer held same early late foreign said =
      let (not_lost, still) = moves_on s held same refl in
      record {
        clocked = bound answer;
        kept = λ h. kept answer said;
        lost_stops = λ lost. absurd (ground (arith, lost, not_lost));
        finished_stops = λ over. absurd (ground (arith, over, still));
        gone = λ a over. not_finished s a still over;
      }
    where
      bound : (answer : Outcome Bool) → lease_after answer (at + ttl) s.lease ≤ clock + ttl
      bound (returned true) = omega arith
      bound (returned false) = omega (arith, held.clocked)
      bound (failed e) = omega (arith, held.clocked)

      stands :
          clock ≤ s.lease
          → Leased key owner s.lease (locker_refresh found_rows key owner ttl at later s.table).2
      stands live =
          refresh_stands key owner clock s.lease live found_rows (at + ttl) later s.table
            (omega (arith, held.clocked)) foreign
            (held.kept (moves_on s held same refl).1 (omega arith))

      kept :
          (answer : Outcome Bool)
          → (locker_refresh found_rows key owner ttl at later s.table).0 ≡ answer
          → clock ≤ lease_after answer (at + ttl) s.lease
          → Leased key owner
              (lease_after answer (at + ttl) s.lease)
              (locker_refresh found_rows key owner ttl at later s.table).2
      kept (returned true) said live =
          refresh-Leased key owner clock found_rows (at + ttl) later s.table foreign said
      kept (returned false) said live = stands live
      kept (failed e) said live = stands live
