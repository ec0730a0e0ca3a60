-- ===== src/Authz/Engine/Unrestricted.antt =====
-- AccessSet.Unrestricted: what a list filter may skip.
use go_core.Prelude.{
  String, ◌≡◌, refl, Bool, true, false, List, [], ◌∷◌, any, any_elim, any_intro, all, arith, int_eq,
}
use go_core.Authz.Types.{Scope, Principal, Permission, Resource}
use go_core.Authz.Clause.{Clause, Attrs, match_record, qualifier_reaches}
use go_core.Authz.Engine.{Engine, AccessSet, unrestricted, unrestricted_clause}
use go_core.Authz.Engine.Decisions.{reaches}

no_attrs :
    (attrs : Attrs) (p : String × List String → Bool)
    → (elim attrs [ [] ↦ true | _ ↦ false ]) ≡ true
    → all p attrs ≡ true
no_attrs [] p h = refl
no_attrs (x ∷ xs) p h = absurd (ground arith)

clause_reaches :
    (e : Engine) (permission : String) (perm : Permission) (p : Principal) (res : Resource)
    (rc : List Scope) (c : Clause)
    → unrestricted_clause e.h c ≡ true
    → reaches e permission perm p res rc c ≡ true
unfolding match_record qualifier_reaches
clause_reaches e permission perm p res rc c h = ground (arith, no_attrs c.attrs)

-- An access set that says it is unrestricted has a clause that reaches every record, whoever asks: a
-- list that then skips the filter shows nothing that the filter would hide.
pub unrestricted-reaches :
    (e : Engine) (permission : String) (perm : Permission) (p : Principal) (res : Resource)
    (rc : List Scope) (set : AccessSet)
    → unrestricted e.h set ≡ true
    → any (reaches e permission perm p res rc) set.clauses ≡ true
unfolding unrestricted
unrestricted-reaches e permission perm p res rc set h =
    let (c, m, free) = any_elim (unrestricted_clause e.h) set.clauses h in
    any_intro (reaches e permission perm p res rc) set.clauses m
      (clause_reaches e permission perm p res rc c free)
