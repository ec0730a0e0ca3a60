-- ===== src/Event/Examples/Failures.antt =====
-- A handler that always times out.
use go_core.Prelude.{
  ℕ, suc, ◌≤◌, pos, string_eq, nat_eq, List, [], ◌∷◌, none, some, ◌≡◌, refl, true, false, leb,
  if◌then◌else◌, ◌==◌, arith,
}
use go_core.Event.Tables.{publish, is_dead}
use go_core.Event.Retrying.{default_retry}
use go_core.Event.Worker.{Consumer, HandleError, itoa, returned}
use go_core.Event.Worker.Delivering.{failures, deliver_all}
use go_core.Event.Worker.Rounds.{deliver_all-failures}
use go_core.Event.Examples.{two_events, event, assigned, envelope}

abbrev timeout : ℕ → HandleError
timeout calls = record { malformed = false; text = "timeout" }

-- The world counts the calls.
abbrev mail : Consumer ℕ
mail = record {
  name = "mail";
  event = assigned;
  version = pos 1;
  payload = "tickets.Assigned";
  retry = record default_retry { attempts = 2 };
  handle = λ id payload calls. (returned (some (timeout calls)), suc calls);
}

abbrev moments : List (ℕ × ℕ)
moments = (0, 1000) ∷ (0, 2000) ∷ (7, 3000) ∷ []

there : two_events.outbox 1 ≡ some event
unfolding publish
there = refl

new_to_mail : two_events.rows 1 "mail" ≡ none
unfolding publish
new_to_mail = refl

same_version : (envelope.version == itoa mail.version) ≡ true
unfolding itoa
same_version = refl

known : 1 ≤ two_events.last_id
unfolding publish
known = omega arith

deliver_all-failures_example :
    (is_dead ((deliver_all (mail ∷ []) mail 1 moments (two_events, 0)).0.rows 1 "mail") ≡ leb 2 3)
    × (failures ((deliver_all (mail ∷ []) mail 1 moments (two_events, 0)).0.rows 1 "mail")
        ≡ (if leb 2 3 then 2 else 3))
deliver_all-failures_example =
    deliver_all-failures (mail ∷ []) mail 1 event envelope timeout refl same_version (λ calls. refl)
      (λ calls. refl) moments two_events 0 (omega arith) (omega arith) known there refl new_to_mail
