-- ===== src/Event/Worker.antt =====
-- event/worker.go and the Consumer of event/typed.go: a consumer's handler runs on a state of its own,
-- the world, which is the application's and a parameter. When the context ends, what the clock says and
-- whether the database takes the outcome are a schedule: one Turn for each claimed event.
pub mod Delivering
pub mod Rounds
use Prim.Native.String.{◌++◌ as joined, char_at}
use go_core.Prelude.{
  ℕ, zero, suc, ◌+◌, ◌*◌, ◌/◌, ◌%◌, ℤ, pos, negsuc, String, string_eq, Bool, true, false, ◌||◌, not,
  List, [], ◌∷◌, Option, none, some, leb, ltb, if◌then◌else◌, ◌==◌, length,
}
use go_core.Event.Tables.{Envelope, AttemptRow, Tables, second, whole}
use go_core.Event.Retrying.{RetryPolicy, default_retry, delay, add_duration}
use go_core.Event.Queue.{ClaimedEvent, batch_size, claim, finish}

-- claimLease and maxErrorRunes
abbrev pub claim_lease : ℕ
claim_lease = 300 * second

abbrev pub max_error_runes : ℕ
max_error_runes = 500

-- A handler's error: whether errors.Is finds ErrMalformed in it, and its text.
pub record HandleError : Type 0 where
  pub malformed : Bool
  pub text : String

-- What a handler does: return, with an error or none, or panic.
pub data Answer : Type 0 where
  returned : Option HandleError → Answer
  panicked : String → Answer

-- `payload` is the name of the Go type that the event carries.
pub record Consumer (W : Type 0) : Type 0 where
  pub name : String
  pub event : String
  pub version : ℤ
  pub payload : String
  pub retry : RetryPolicy
  pub handle : ℕ → String → W → Answer × W

-- To: `decode` is json.Unmarshal into the payload's type, `none` where it fails. The text of its error
-- is left out.
abbrev pub to :
    {W T : Type 0}
    → String
    → ℤ
    → String
    → (String → Option T)
    → String
    → (ℕ → T → W → Answer × W)
    → Consumer W
to event version payload decode consumer handler = record {
  name = consumer;
  event = event;
  version = version;
  payload = payload;
  retry = default_retry;
  handle = λ id raw w. elim (decode raw) [
    | none ↦ (returned (some (record { malformed = true; text = "malformed event: payload" })), w)
    | some value ↦ handler id value w
  ];
}

-- strconv.Itoa: the decimal digits, the last one first in the recursion; n has at most n + 1 of them.
unfoldable pub digits : ℕ → ℕ → String → String
digits zero n text = text
digits (suc rounds) n text =
    let longer = String.◌∷◌ (char_at "0123456789" (n % 10)) text in
    let rest = digits rounds (n / 10) longer in if ltb n 10 then longer else rest

unfoldable pub itoa : ℤ → String
unfolding digits
itoa (pos n) = digits (suc n) n ""
itoa (negsuc n) = joined "-" (digits (suc (suc n)) (suc n) "")

pub record Turn : Type 0 where
  pub stopping : Bool
  pub stopped : Bool
  pub clock : ℕ
  pub recorded : Bool

-- The first n runes of a text.
unfoldable pub take_runes : ℕ → String → String
take_runes zero s = String.[]
take_runes (suc n) String.[] = String.[]
take_runes (suc n) (String.◌∷◌ letter s) = String.◌∷◌ letter (take_runes n s)

-- truncateError
abbrev pub truncate_error : String → String
truncate_error s = take_runes max_error_runes s

-- What a deferred recover makes of a handler's answer.
abbrev pub recovered : Answer → Option HandleError
recovered (returned answer) = answer
recovered (panicked what) =
    some (record { malformed = false; text = joined "handler panicked: " what })

-- The error of an envelope that cannot be read, or is of another version. The texts are cut short.
abbrev pub unreadable : HandleError
unreadable = record { malformed = true; text = "malformed event: envelope" }

abbrev pub wrong_version : HandleError
wrong_version = record { malformed = true; text = "malformed event: written as version" }

-- The row that run records for what the handler returned, at the time `now`.
abbrev pub outcome_row : RetryPolicy → ℕ → ℕ → Option HandleError → AttemptRow
outcome_row policy attempts now none = record {
  attempts = attempts;
  next_attempt_at = now;
  last_error = "";
  done_at = some now;
  dead_at = none;
  updated_at = now;
}
outcome_row policy attempts now (some e) =
    if e.malformed || leb policy.attempts (attempts + 1)
    then record {
      attempts = attempts + 1;
      next_attempt_at = now;
      last_error = truncate_error e.text;
      done_at = none;
      dead_at = some now;
      updated_at = now;
    }
    else record {
      attempts = attempts + 1;
      next_attempt_at = add_duration now (delay policy (attempts + 1));
      last_error = truncate_error e.text;
      done_at = none;
      dead_at = none;
      updated_at = now;
    }

-- `handleErr != nil && ctx.Err() != nil`
abbrev pub interrupted : Bool → Option HandleError → Bool
interrupted stopped none = false
interrupted stopped (some e) = stopped

abbrev pub add_error : Option HandleError → List HandleError → List HandleError
add_error none errs = errs
add_error (some e) errs = e ∷ errs

-- A turn past the end of the schedule is calm, at the time of the last one.
abbrev pub next_turn : ℕ → List Turn → Turn × List Turn
next_turn clock [] =
    (record { stopping = false; stopped = false; clock = clock; recorded = true }, [])
next_turn clock (turn ∷ turns) = (turn, turns)

module _ {W : Type 0} where
  -- handle
  unfoldable pub handle : Consumer W → ClaimedEvent → W → Option HandleError × W
  unfolding itoa
  handle c ev w = elim ev.envelope [
    | none ↦ (some unreadable, w)
    | some env ↦
        if not (env.version == itoa c.version)
        then (some wrong_version, w)
        else (recovered (c.handle ev.id env.payload w).0, (c.handle ev.id env.payload w).1)
  ]

  -- Queue.siblings
  unfoldable pub siblings : String → List (Consumer W) → List String
  siblings event_name [] = []
  siblings event_name (c ∷ cs) =
      let rest = siblings event_name cs in if c.event == event_name then c.name ∷ rest else rest

  -- run, and process around it
  unfoldable pub run :
      List (Consumer W)
      → Consumer W
      → Turn
      → ClaimedEvent
      → Tables × W
      → (Tables × W) × Option HandleError
  unfolding handle siblings whole
  run consumers c turn ev (t, w) =
      let (answer, w') = handle c ev w in
      if interrupted turn.stopped answer
      then ((t, w'), answer)
      else if not turn.recorded
      then ((t, w'), answer)
      else (
        (
          finish ev.id c.name (outcome_row c.retry ev.attempts (whole turn.clock) answer)
              (siblings c.event consumers) t,
          w',
        ),
        answer,
      )

  -- handleAll, with the turns that are left
  unfoldable pub handle_all :
      List (Consumer W)
      → Consumer W
      → ℕ
      → List ClaimedEvent
      → List Turn
      → Tables × W
      → (Tables × W) × List HandleError × List Turn
  unfolding run
  handle_all consumers c clock [] turns state = (state, [], turns)
  handle_all consumers c clock (ev ∷ evs) turns state =
      let (turn, later) = next_turn clock turns in
      if turn.stopping
      then (state, [], later)
      else (let (state', answer) = run consumers c turn ev state in
          let (state'', errs, left) = handle_all consumers c turn.clock evs later state' in
          (state'', add_error answer errs, left))

  -- tick, at the clock's reading `clock`: how many events were claimed, and what the handlers returned
  unfoldable pub tick :
      List (Consumer W)
      → Consumer W
      → ℕ
      → List Turn
      → Tables × W
      → ℕ × (Tables × W) × List HandleError × List Turn
  unfolding claim handle_all whole
  tick consumers c clock turns (t, w) =
      let now = whole clock in
      let (t', claimed) = claim c.name c.event now (now + claim_lease) batch_size t in
      let (state, errs, left) = handle_all consumers c clock claimed turns (t', w) in
      (length claimed, state, errs, left)
