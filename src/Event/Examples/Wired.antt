-- ===== src/Event/Examples/Wired.antt =====
-- Problems, applied: the two consumers of the desk.
use go_core.Prelude.{ℕ, pos, ◌≡◌, refl, List, [], ◌∷◌, none, lookup, insert}
use go_core.Event.Retrying.{default_retry}
use go_core.Event.Worker.{Consumer, returned}
use go_core.Event.Problems.{
  problems, problems_from, consumer_problems, matches_name, rest_matches, cannot_work,
}
use go_core.Event.Problems.Sound.{Ordered, problems-Ordered}
use go_core.Event.Examples.{assigned}

abbrev mail : Consumer ℕ
mail = record {
  name = "mail";
  event = assigned;
  version = pos 1;
  payload = "tickets.Assigned";
  retry = default_retry;
  handle = λ id payload calls. (returned none, calls);
}

abbrev consumers : List (Consumer ℕ)
consumers = mail ∷ record mail { name = "audit-log" } ∷ []

nothing_wrong : problems consumers ≡ []
unfolding problems_from consumer_problems matches_name rest_matches cannot_work lookup insert
nothing_wrong = refl

problems-Ordered_example : Ordered consumers
problems-Ordered_example = problems-Ordered consumers nothing_wrong
