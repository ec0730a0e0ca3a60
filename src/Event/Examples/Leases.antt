-- ===== src/Event/Examples/Leases.antt =====
-- Leases and the delivery of events.
use go_core.Prelude.{
  ◌≤◌, string_eq, nat_eq, [], ◌∷◌, none, some, Memᴰ, ◌≡◌, ◌⊎◌, refl, true, false, nat_beq,
  if◌then◌else◌, any, arith,
}
use go_core.Event.Tables.{Tables, OutboxEvent, finished, publish, write_row}
use go_core.Event.Queue.{ClaimedEvent, claimed_event, claim_due, write_leases, lease, finish}
use go_core.Event.Steps.{Elsewhere, Meanwhile, Reach, Step, no_tables, letter_expired}
use go_core.Event.Steps.Exclusive.{lease_exclusive}
use go_core.Event.Queue.Leasing.{due_from}
use go_core.Event.Steps.Delivery.{delivered}
use go_core.Event.Steps.Stranded.{finish_stranded}
use go_core.Event.DeadLetters.{dead_letter_not_found, retry}
use go_core.Event.Examples.{
  desk, desk_names, two_events, event, assigned, envelope, succeeded, failed,
}

abbrev leased : Tables
leased = (lease "mail" (1 ∷ []) 10 310 two_events).0

abbrev first : ClaimedEvent
first = claimed_event 1 event none

abbrev second : ClaimedEvent
second = claimed_event 2 event none

first_claimed : Memᴰ first (lease "mail" (1 ∷ []) 10 310 two_events).1
unfolding lease claim_due publish
first_claimed = Memᴰ.head refl

second_claimed :
    Memᴰ second (lease "mail" (1 ∷ 2 ∷ []) 20 320 (lease "log" (1 ∷ []) 15 315 leased).0).1
unfolding lease claim_due write_leases write_row publish
second_claimed = Memᴰ.head refl

-- The other consumer leases the first event meanwhile; then only the second one is left to claim.
lease_exclusive_example : nat_beq first.id second.id ≡ false
lease_exclusive_example =
    lease_exclusive "mail" (1 ∷ []) (1 ∷ 2 ∷ []) 10 310 20 320 two_events
      (lease "log" (1 ∷ []) 15 315 leased).0 first second first_claimed
      (Meanwhile.and_then Meanwhile.nothing
        (Elsewhere.leases "log" (1 ∷ []) 15 315 leased (omega arith)))
      (omega arith) second_claimed

-- The first consumer has handled the first event; the other one has not claimed it yet.
abbrev handled : Tables
handled = finish 1 "mail" succeeded ("mail" ∷ "log" ∷ []) leased

leased_reached : Reach desk leased
leased_reached =
    Reach.later
      (Reach.later (Reach.later Reach.start (Step.publishes assigned (some envelope) no_tables))
        (Step.publishes assigned (some envelope) (publish assigned (some envelope) no_tables)))
      (Step.leases "mail" (1 ∷ []) 10 310 two_events)

handled_reached : Reach desk handled
unfolding lease claim_due write_leases write_row publish
handled_reached =
    Reach.later leased_reached (Step.finishes 1 "mail" succeeded event leased refl refl)

still_there : handled.outbox 1 ≡ some event
unfolding finish lease claim_due write_leases write_row publish
still_there = refl

log_due : due_from (handled.rows 1 "log") ≤ 20
unfolding finish lease claim_due write_leases write_row publish
log_due = omega arith

delivered_example :
    (finished (handled.rows 1 "log") ≡ true)
    ⊎ ((letter_expired handled_reached 1 "log" ≡ true)
        ⊎ Memᴰ
            (claimed_event 1 event (handled.rows 1 "log"))
            (lease "log" (1 ∷ []) 20 320 handled).1)
delivered_example =
    delivered desk desk_names handled_reached 1 event "log" still_there (Memᴰ.tail (Memᴰ.head refl))
      (1 ∷ []) 20 320 refl log_due

-- Both consumers have finished the event, when a worker of the first one reports a failure.
abbrev processed_event : OutboxEvent
processed_event = record event { processed_at = some 5 }

abbrev processed : Tables
processed = record two_events { outbox = λ i. if nat_beq i 1 then some processed_event else none }

abbrev late : Tables
late = finish 1 "mail" failed ("mail" ∷ "log" ∷ []) processed

finish_stranded_example :
    (finished (late.rows 1 "mail") ≡ false)
    × (any (λ ev. nat_beq 1 ev.id) (lease "mail" (1 ∷ []) 1000 1300 late).1 ≡ false)
    × ((retry 1000 1 "mail" late).1 ≡ dead_letter_not_found)
finish_stranded_example =
    finish_stranded 1 "mail" failed ("mail" ∷ "log" ∷ []) processed {event = processed_event} refl
      refl refl "mail" (1 ∷ []) 1000 1300 1000
