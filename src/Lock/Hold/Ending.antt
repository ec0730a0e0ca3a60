-- ===== src/Lock/Hold/Ending.antt =====
-- lock/lock.go: what Hold still has to do once run is over, and that every step of its own is a step nearer.
use go_core.Prelude.{
  ℕ, suc, ◌+◌, ◌≤◌, ◌<◌, String, ◌≡◌, refl, sym, Bool, true, false, Option, arith, if◌then◌else◌,
}
use mathlib.Core.Path.{subst}
use go_core.Lock.{Outcome}
use go_core.Lock.Hold.{
  Holding, HoldAnswer, ran, lease_lost, panicked, Beat, starting, waiting, asking, answered,
  stopped, Phase, running, ended, cancelled_run, finished, Verdict, goes_on, returns, loses,
  hold_answer, verdict, judged, Step, passes, others, cancels, starts, sees_done, ticks, refreshes,
  judges, run_returns, run_panics, cancels_run, releases, Reach, here, next,
}

-- What Hold may answer once run is over: the run's own error, if any, with the loss of the lease if it was
-- lost by then, or run's panic goes on.
pub data Answers : Bool → HoldAnswer → Type 0 where
  run_alone : (err : Option String) → Answers false (ran err)
  with_loss : (err : Option String) → Answers true (lease_lost err)
  run_panicked : (lost : Bool) → Answers lost panicked

abbrev pub after_cancel : Phase → Bool
after_cancel running = false
after_cancel (ended a) = false
after_cancel (cancelled_run a) = true
after_cancel (finished a done) = false

-- What is left to do: the steps of the heartbeat until it stops, and the cancel and the release.
abbrev beats_left : Beat → ℕ
beats_left starting = 4
beats_left (waiting until) = 3
beats_left (asking now until) = 2
beats_left (answered now until answer) = 1
beats_left stopped = 0

abbrev steps_left : Phase → Beat → ℕ
steps_left running b = 6
steps_left (ended a) b = 6
steps_left (cancelled_run a) b = suc (beats_left b)
steps_left (finished a done) b = 0

-- Hold is on its way to the answer.
abbrev pub Ending : HoldAnswer → Phase → Bool → Type 0
Ending a running cancelled = ⊥
Ending a (ended b) cancelled = b ≡ a
Ending a (cancelled_run b) cancelled = (b ≡ a) × (cancelled ≡ true)
Ending a (finished b done) cancelled = b ≡ a

pub not_over : {a : HoldAnswer} → running ≡ ended a → ⊥
not_over same = ground (arith, same)

pub judged_phase : (s : Holding) (v : Verdict) → (judged v s).phase ≡ s.phase
judged_phase s (goes_on until) = refl
judged_phase s returns = refl
judged_phase s loses = refl

abbrev pub answer_of : HoldAnswer → Phase → HoldAnswer
answer_of other running = other
answer_of other (ended a) = a
answer_of other (cancelled_run a) = a
answer_of other (finished a done) = a

few_beats : (b : Beat) → beats_left b ≤ 4
few_beats starting = omega arith
few_beats (waiting until) = omega arith
few_beats (asking now until) = omega arith
few_beats (answered now until answer) = omega arith
few_beats stopped = omega arith

pub answers : (lost : Bool) (err : Option String) → Answers lost (hold_answer lost err)
answers true err = with_loss err
answers false err = run_alone err

-- A step of the heartbeat, or a cancel by whoever it is.
beat_goes :
    (a : HoldAnswer) (phase : Phase) (b b' : Beat) (c c' : Bool)
    → (c ≡ true → c' ≡ true)
    → (c ≡ true → beats_left b' < beats_left b)
    → Ending a phase c
    → Ending a phase c'
      × ((if after_cancel phase then 1 else 0) + steps_left phase b' ≤ steps_left phase b)
beat_goes a running b b' c c' stays less e = absurd e
beat_goes a (ended d) b b' c c' stays less e = (e, omega arith)
beat_goes a (cancelled_run d) b b' c c' stays less (same, done) =
    let fewer = less done in ((same, stays done), omega arith)
beat_goes a (finished d r) b b' c c' stays less e = (e, omega arith)

stays_on_the_way :
    (a : HoldAnswer) (phase : Phase) (c : Bool) → Ending a phase c → Ending a phase true
stays_on_the_way a running c e = e
stays_on_the_way a (ended d) c e = e
stays_on_the_way a (cancelled_run d) c (same, done) = (same, refl)
stays_on_the_way a (finished d r) c e = e

module _ (found_rows : Bool) (key owner : String) (ttl : ℕ) where
  -- The steps of Hold itself once run is over: the deferred cancel, then every step of the heartbeat and
  -- the release. The other steps are the clock's, other clients' and the caller's.
  abbrev pub own : (s : Holding) {u : Holding} → Step found_rows key owner ttl s u → Bool
  own s (passes clock later) = false
  own s (others act) = false
  own s cancels = false
  own s (starts at) = after_cancel s.phase
  own s (sees_done until at done) = after_cancel s.phase
  own s (ticks until at) = after_cancel s.phase
  own s (refreshes now until from clock later at early late foreign) = after_cancel s.phase
  own s (judges now until answer at) = after_cancel s.phase
  own s (run_returns err runs) = false
  own s (run_panics runs) = false
  own s (cancels_run a over) = true
  own s (releases a moment over stops foreign) = true

  abbrev pub own_steps : {s u : Holding} → Reach found_rows key owner ttl s u → ℕ
  own_steps here = 0
  own_steps (next {t} before step) = let n = own_steps before in if own t step then suc n else n

  verdict_cancelled :
      (c : Bool) (now until : ℕ) (answer : Outcome Bool)
      → c ≡ true
      → verdict c ttl now until answer ≡ returns
  unfolding verdict
  verdict_cancelled c now until answer done = rw done refl

  judged_goes :
      (a : HoldAnswer) (s : Holding) (v : Verdict) (now until : ℕ) (answer : Outcome Bool)
      → s.beat ≡ answered now until answer
      → (s.cancelled ≡ true → v ≡ returns)
      → Ending a s.phase s.cancelled
      → Ending a (judged v s).phase (judged v s).cancelled
        × ((if after_cancel s.phase then 1 else 0) + steps_left (judged v s).phase (judged v s).beat
            ≤ steps_left s.phase s.beat)
  judged_goes a s (goes_on later) now until answer at ends e =
      beat_goes a s.phase s.beat (waiting later) s.cancelled s.cancelled (λ c. c)
        (λ c. absurd (ground (arith, ends c))) e
  judged_goes a s returns now until answer at ends e =
      beat_goes a s.phase s.beat stopped s.cancelled s.cancelled (λ c. c) (λ c. ground (arith, at))
        e
  judged_goes a s loses now until answer at ends e =
      beat_goes a s.phase s.beat stopped s.cancelled true (λ c. refl) (λ c. ground (arith, at)) e

  -- Every step keeps Hold on its way, and its own ones bring it nearer.
  goes :
      (a : HoldAnswer) (s : Holding) {u : Holding} (step : Step found_rows key owner ttl s u)
      → Ending a s.phase s.cancelled
      → Ending a u.phase u.cancelled
        × ((if own s step then 1 else 0) + steps_left u.phase u.beat ≤ steps_left s.phase s.beat)
  goes a s (passes clock later) e = (e, omega arith)
  goes a s (others act) e = (e, omega arith)
  goes a s cancels e = (stays_on_the_way a s.phase s.cancelled e, omega arith)
  goes a s (starts at) e =
      beat_goes a s.phase s.beat (waiting (s.clock + ttl)) s.cancelled s.cancelled (λ c. c)
        (λ c. ground (arith, at)) e
  goes a s (sees_done until at done) e =
      beat_goes a s.phase s.beat stopped s.cancelled s.cancelled (λ c. c) (λ c. ground (arith, at))
        e
  goes a s (ticks until at) e =
      beat_goes a s.phase s.beat (asking s.clock until) s.cancelled s.cancelled (λ c. c)
        (λ c. ground (arith, at)) e
  goes a s {u} (refreshes now until from clock later at early late foreign) e =
      beat_goes a s.phase s.beat u.beat s.cancelled s.cancelled (λ c. c) (λ c. ground (arith, at)) e
  goes a s (judges now until answer at) e =
      judged_goes a s (verdict s.cancelled ttl now until answer) now until answer at
        (verdict_cancelled s.cancelled now until answer) e
  goes a s (run_returns err runs) e = absurd (subst (λ p. Ending a p s.cancelled) runs e)
  goes a s (run_panics runs) e = absurd (subst (λ p. Ending a p s.cancelled) runs e)
  goes a s (cancels_run b over) e =
      let same : b ≡ a = subst (λ p. Ending a p s.cancelled) over e in
      ((same, refl), ground (arith, over, few_beats s.beat))
  goes a s (releases b moment over stops foreign) e =
      let (same, done) = subst (λ p. Ending a p s.cancelled) over e in (same, ground (arith, over))

  pub goes_all :
      (a : HoldAnswer) {t u : Holding} (run : Reach found_rows key owner ttl t u)
      → t.phase ≡ ended a
      → Ending a u.phase u.cancelled × (own_steps run + steps_left u.phase u.beat ≤ 6)
  goes_all a {t} here over =
      (subst (λ p. Ending a p t.cancelled) (sym over) refl, ground (arith, over))
  goes_all a (next {t = s} before step) over =
      let (on_way, few) = goes_all a before over in
      let (still, nearer) = goes a s step on_way in (still, ground (arith, few, nearer))
