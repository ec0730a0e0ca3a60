-- ===== src/Lock/Hold/Kept.antt =====
-- lock/lock.go: what Hold keeps, in every order of the steps.
use go_core.Prelude.{
  ℕ, ℤ, pos, pos_part, int_leb, ◌+◌, ◌≤◌, String, string_eq, ◌≡◌, refl, ap, Bool, true, false, List,
  [], ◌∷◌, Option, none, some, arith, Bool-cases, inl, inr,
}
use mathlib.Core.Path.{subst}
use go_core.Lock.{Table, DbError, Outcome, returned, failed, Moment, release, locker_acquire}
use go_core.Lock.Leases.{Leased}
use go_core.Lock.Hold.{
  Holding, starting, waiting, asking, answered, stopped, running, refused, acquired, begun,
  begin_hold, verdict, Foreign, Step, passes, others, cancels, starts, sees_done, ticks, refreshes,
  judges, run_returns, run_panics, cancels_run, releases, Reach, here, next, none_yet, then_act,
}
use go_core.Lock.Hold.Clients.{Acts-Leased, Acts-Gone, Gone}
use go_core.Lock.Hold.Granted.{acquire-Leased}
use go_core.Lock.Hold.Standing.{release-Gone}
use go_core.Lock.Hold.Held.{Held, holds, beats-Held, judged-Held, refreshed-Held}

module _ (found_rows : Bool) (key owner : String) (ttl : ℕ) where
  abbrev Keeps : Holding → Type 0
  Keeps = Held found_rows key owner ttl

  released :
      (moment : Moment) (t : Table)
      → (elim (release key owner (moment ∷ []) t).0 [ returned _ ↦ true | failed _ ↦ false ]) ≡ true
      → Gone key owner (release key owner (moment ∷ []) t).2
  unfolding release
  released moment t done = release-Gone key owner 0 moment t (accepted moment.refused refl)
    where
      accepted : (r : Option DbError) → moment.refused ≡ r → moment.refused ≡ none
      accepted none same = same
      accepted (some e) same = absurd (ground (arith, same, done))

  Step-Held : {s s' : Holding} → Step found_rows key owner ttl s s' → Keeps s → Keeps s'
  Step-Held {s = s} (passes clock later) held = record {
    clocked = omega (arith, held.clocked);
    kept = λ h live. held.kept h (omega arith);
    lost_stops = held.lost_stops;
    finished_stops = held.finished_stops;
    gone = held.gone;
  }
  Step-Held {s = s} (others {t = t} act) held = record {
    clocked = held.clocked;
    kept = λ h live.
        Acts-Leased key owner s.clock s.lease s.table t (then_act none_yet act) live
          (held.kept h live);
    lost_stops = held.lost_stops;
    finished_stops = held.finished_stops;
    gone =
        λ a over. Acts-Gone key owner s.clock s.table t (then_act none_yet act) (held.gone a over);
  }
  Step-Held cancels held = record {
    clocked = held.clocked;
    kept = held.kept;
    lost_stops = λ lost. (refl, (held.lost_stops lost).1);
    finished_stops = held.finished_stops;
    gone = held.gone;
  }
  Step-Held {s = s} (starts same) held =
      beats-Held found_rows key owner ttl s starting (waiting (s.clock + ttl)) held same refl
  Step-Held {s = s} (sees_done until same done) held =
      beats-Held found_rows key owner ttl s (waiting until) stopped held same refl
  Step-Held {s = s} (ticks until same) held =
      beats-Held found_rows key owner ttl s (waiting until) (asking s.clock until) held same refl
  Step-Held {s = s} (refreshes now until at clock later same early late foreign) held =
      refreshed-Held found_rows key owner ttl s now until at clock later _ held same early late
        foreign refl
  Step-Held {s = s} (judges now until answer same) held =
      judged-Held found_rows key owner ttl s (answered now until answer)
        (verdict s.cancelled ttl now until answer) held same refl
  Step-Held {s = s} (run_returns err same) held = record {
    clocked = held.clocked;
    kept = λ h live. held.kept (ap holds same) live;
    lost_stops = held.lost_stops;
    finished_stops = λ over. absurd (ground arith);
    gone = λ a over. absurd (ground (arith, ap holds over));
  }
  Step-Held {s = s} (run_panics same) held = record {
    clocked = held.clocked;
    kept = λ h live. held.kept (ap holds same) live;
    lost_stops = held.lost_stops;
    finished_stops = λ over. absurd (ground arith);
    gone = λ a over. absurd (ground (arith, ap holds over));
  }
  Step-Held {s = s} (cancels_run b same) held = record {
    clocked = held.clocked;
    kept = λ h live. held.kept (ap holds same) live;
    lost_stops = λ lost. (refl, (held.lost_stops lost).1);
    finished_stops = λ over. absurd (ground arith);
    gone = λ a over. absurd (ground (arith, ap holds over));
  }
  Step-Held {s = s} (releases b moment same over foreign) held = record {
    clocked = held.clocked;
    kept = λ h live. absurd (ground arith);
    lost_stops = held.lost_stops;
    finished_stops = λ h. over;
    gone = λ a done. released moment s.table (ground arith);
  }

  begun-Held :
      (now until clock : ℕ) (later : List Moment) (t : Table) (s : Holding)
      (answer : Outcome Bool × List Moment × Table)
      → until ≤ now + ttl
      → (answer.0 ≡ returned true → Leased key owner until answer.2)
      → begun now until answer ≡ acquired s
      → Keeps s
  begun-Held now until clock later t s (failed e, rest, left) bound granted started =
      absurd (ground (arith, started))
  begun-Held now until clock later t s (returned false, rest, left) bound granted started =
      absurd (ground (arith, started))
  begun-Held now until clock later t s (returned true, rest, left) bound granted started =
      let first : Holding = record {
        table = left;
        clock = now;
        cancelled = false;
        lost = false;
        beat = starting;
        phase = running;
        lease = until;
      } in
      subst Keeps (ap (λ x. elim x [ acquired h ↦ h | refused a u ↦ first ]) started) (record {
        clocked = bound;
        kept = λ h live. granted refl;
        lost_stops = λ lost. absurd (ground arith);
        finished_stops = λ over. absurd (ground arith);
        gone = λ a over. absurd (ground (arith, ap holds over));
      })

  Reach-Held : {s s' : Holding} → Reach found_rows key owner ttl s s' → Keeps s → Keeps s'
  Reach-Held here held = held
  Reach-Held (next reached step) held = Step-Held step (Reach-Held reached held)

begin_hold-Held :
    (found_rows : Bool) (key owner : String) (ttl : ℤ) (now clock : ℕ) (later : List Moment)
    (t : Table) (s : Holding)
    → Foreign key owner clock later
    → begin_hold found_rows key owner ttl now later t ≡ acquired s
    → Held found_rows key owner (pos_part ttl) s
unfolding begin_hold
begin_hold-Held found_rows key owner ttl now clock later t s foreign started =
    elim (Bool-cases (int_leb ttl (pos 0))) [
      | inl bad ↦ absurd (ground (arith, bad, started))
      | inr positive ↦
          begun-Held found_rows key owner (pos_part ttl) now (now + pos_part ttl) clock later t s
            (locker_acquire found_rows key owner (pos_part ttl) now later t) (omega arith)
            (acquire-Leased key owner clock found_rows now (now + pos_part ttl) later t foreign)
            (ground (arith, positive, started))
    ]

-- Take a Hold that has acquired its key, whatever other clients did meanwhile, and any state that it,
-- the other clients and the clock, which does not go back, reach from there. Until Hold gives the key
-- back, the key is the holder's as long as the clock is not past the end that its last successful call
-- gave the lease. When the lease counts as lost, the run is cancelled and the heartbeat has stopped; it
-- has stopped too when the key is given back, so no refresh follows, and when that release was carried
-- out, the key is not the holder's any more.
pub hold-Held :
    (found_rows : Bool) (key owner : String) (ttl : ℤ) (now clock : ℕ) (later : List Moment)
    (t : Table) (s s' : Holding)
    → Foreign key owner clock later
    → begin_hold found_rows key owner ttl now later t ≡ acquired s
    → Reach found_rows key owner (pos_part ttl) s s'
    → Held found_rows key owner (pos_part ttl) s'
hold-Held found_rows key owner ttl now clock later t s s' foreign started reached =
    Reach-Held found_rows key owner (pos_part ttl) reached
      (begin_hold-Held found_rows key owner ttl now clock later t s foreign started)
