-- ===== src/Authz/Engine/Payload/Shown.antt =====
-- authz/payload.go: a client is shown exactly the permissions that Require lets through.
use go_core.Prelude.{
  ℕ, String, string_eq, ◌≡◌, refl, sym, ap, ◌∙◌, inl, inr, ◌⊎◌, Bool, true, false, List, [], ◌∷◌,
  Option, none, some, Map, lookup, lookup-insert, lookup-mem, if◌then◌else◌, ◌==◌, ==-eq, ==_refl,
  arith, Bool-cases, Option-cases, contains, contains_intro,
}
use mathlib.Core.Path.{subst}
use go_core.Authz.Errors.{Result, ok, fault, forbidden_error, Result-cases, ok-injective}
use go_core.Authz.Types.{Permission, Principal, Subject}
use go_core.Authz.Catalogue.{lookup_permission}
use go_core.Authz.Role.{or_bare, sorted_keys}
use go_core.Authz.Role.Grants.{mem_sorted_keys}
use go_core.Authz.Clause.{Clause}
use go_core.Authz.Effective.{Effective, clauses}
use go_core.Authz.Cache.{Cache}
use go_core.Authz.Engine.{
  Engine, open_clauses, require_clauses, feature_on, effective, principal_from, prepare, require,
}
use go_core.Authz.Engine.Payload.{
  PermissionAccess, MyAccess, show, show_all, access_payload, my_access,
}

abbrev is_nil : List Clause → Bool
is_nil [] = true
is_nil (c ∷ cs) = false

abbrev pub is_shown : String → Map String PermissionAccess → Bool
is_shown id permissions = elim (lookup id permissions) [ none ↦ false | some _ ↦ true ]

abbrev pub answer : String → Bool → Result (Unit {0})
answer permission told = if told then ok tt else fault (forbidden_error permission)

module _ (e : Engine) where
  -- When every gate answers, Require passes over the clauses exactly when one is open.
  require-open :
      (permission : String) (perm : Permission) (cs opened : List Clause)
      → open_clauses e perm cs ≡ ok opened
      → require_clauses e permission perm cs
        ≡ (if is_nil opened then fault (forbidden_error permission) else ok tt)
  unfolding open_clauses require_clauses
  require-open permission perm [] opened all =
      subst
        (λ x.
          fault (forbidden_error permission)
          ≡ (if is_nil x then fault (forbidden_error permission) else ok tt))
        (ok-injective all) refl
  require-open permission perm (c ∷ cs) opened all =
      elim (Result-cases (feature_on e perm c.scope c.chain)) [
        | inr (x, failed) ↦ absurd (ground (arith, failed))
        | inl (true, on) ↦ elim (Result-cases (open_clauses e perm cs)) [
          | inr (x, failed) ↦ absurd (ground (arith, on, failed))
          | inl (rest, others) ↦
              let first : open_clauses e perm (c ∷ cs) ≡ ok (c ∷ rest) =
                ground (arith, on, others) in
              let some_open = ap is_nil (ok-injective (sym first ∙ all)) in
              ground (arith, on, some_open)
        ]
        | inl (false, off) ↦
            ground (arith, off, require-open permission perm cs opened (ground (arith, off)))
      ]

  -- What the payload says of one permission, when it is made.
  show-shown :
      (id k : String) (opened : List Clause) (rest : Map String PermissionAccess × List String)
      → is_shown k (show e.h id opened rest).0
        ≡ (if is_nil opened then is_shown k rest.0 else if id == k then true else is_shown k rest.0)
  show-shown id k [] rest = refl
  show-shown id k (c ∷ cs) rest =
      ap (λ o. elim o [ none ↦ false | some _ ↦ true ]) (lookup-insert id k _ rest.0)
      ∙ picked (id == k) rest.0 _
    where
      picked :
          (b : Bool) (m : Map String PermissionAccess) (v : PermissionAccess)
          → (elim (if b then some v else lookup k m) [ none ↦ false | some _ ↦ true ])
            ≡ (if b then true else is_shown k m)
      picked true m v = refl
      picked false m v = refl

  -- What the payload of these permissions says of one: nothing, or whether a clause is open.
  abbrev Seen : Effective → List String → String → Map String PermissionAccess → Type 0
  Seen eff ids k permissions =
      ((contains ids k ≡ false) × (is_shown k permissions ≡ false))
      ⊎ ((opened : List Clause) × (open_clauses e (or_bare (lookup_permission e.cat k))
              (clauses eff k)
            ≡ ok opened)
          × (is_shown k permissions ≡ (if is_nil opened then false else true)))

  show-other :
      (id k : String) (opened : List Clause) (rest : Map String PermissionAccess × List String)
      → (id == k) ≡ false
      → is_shown k (show e.h id opened rest).0 ≡ is_shown k rest.0
  show-other id k opened rest differs =
      show-shown id k opened rest ∙ past (is_nil opened) (id == k) (is_shown k rest.0) differs
    where
      past : (b c x : Bool) → c ≡ false → (if b then x else if c then true else x) ≡ x
      past true c x h = refl
      past false c x h = ground arith

  show-same :
      (eff : Effective) (ids : List String) (id : String) (opened : List Clause)
      (rest : Map String PermissionAccess × List String)
      → open_clauses e (or_bare (lookup_permission e.cat id)) (clauses eff id) ≡ ok opened
      → Seen eff ids id rest.0
      → is_shown id (show e.h id opened rest).0 ≡ (if is_nil opened then false else true)
  show-same eff ids id (c ∷ cs) rest here seen =
      show-shown id id (c ∷ cs) rest ∙ ground (arith, ==_refl id)
  show-same eff ids id [] rest here (inl (absent, hidden)) = hidden
  show-same eff ids id [] rest here (inr (others, open_others, told)) =
      told ∙ ap (λ x. if is_nil x then false else true) (ok-injective (sym open_others ∙ here))

  Seen-next :
      (eff : Effective) (id : String) (ids : List String) (k : String) (opened : List Clause)
      (rest : Map String PermissionAccess × List String)
      → open_clauses e (or_bare (lookup_permission e.cat id)) (clauses eff id) ≡ ok opened
      → Seen eff ids k rest.0
      → Seen eff (id ∷ ids) k (show e.h id opened rest).0
  Seen-next eff id ids k opened rest here seen = elim (Bool-cases (id == k)) [
    | inr differs ↦ elim seen [
      | inl (absent, hidden) ↦
          inl (ground (arith, differs, absent), show-other id k opened rest differs ∙ hidden)
      | inr (others, open_others, told) ↦
          inr (others, open_others, show-other id k opened rest differs ∙ told)
    ]
    | inl same ↦
        let eq = ==-eq id k same in
        let here' =
          subst
            (λ x. open_clauses e (or_bare (lookup_permission e.cat x)) (clauses eff x) ≡ ok opened)
            eq here in
        inr (
          opened,
          here',
          subst
              (λ x. is_shown k (show e.h x opened rest).0 ≡ (if is_nil opened then false else true))
              (sym eq) (show-same eff ids k opened rest here' seen),
        )
  ]

  shown :
      (eff : Effective) (ids : List String) (k : String)
      (out : Map String PermissionAccess × List String)
      → show_all e eff ids ≡ ok out
      → Seen eff ids k out.0
  unfolding show_all lookup
  shown eff [] k out all = inl (refl, subst (λ x. is_shown k x.0 ≡ false) (ok-injective all) refl)
  shown eff (id ∷ ids) k out all =
      elim (Result-cases (open_clauses e (or_bare (lookup_permission e.cat id)) (clauses eff id))) [
        | inr (x, failed) ↦ absurd (ground (arith, failed))
        | inl (opened, here) ↦ elim (Result-cases (show_all e eff ids)) [
          | inr (x, failed) ↦ absurd (ground (arith, here, failed))
          | inl (rest, others) ↦
              let to : show_all e eff (id ∷ ids) ≡ ok (show e.h id opened rest) =
                ground (arith, here, others) in
              subst (λ x. Seen eff (id ∷ ids) k x.0) (ok-injective (sym to ∙ all))
                (Seen-next eff id ids k opened rest here (shown eff ids k rest others))
        ]
      ]

  none_held :
      (eff : Effective) (k : String) (perm : Permission)
      → lookup k eff.grants ≡ none
      → require_clauses e k perm (clauses eff k) ≡ fault (forbidden_error k)
  unfolding clauses require_clauses
  none_held eff k perm missing = rw missing refl

  -- What Require answers over the clauses of a permission is what the payload shows.
  require-shown :
      (eff : Effective) (k : String) (perm : Permission)
      (out : Map String PermissionAccess × List String)
      → lookup_permission e.cat k ≡ some perm
      → show_all e eff (sorted_keys eff.grants) ≡ ok out
      → require_clauses e k perm (clauses eff k) ≡ answer k (is_shown k out.0)
  require-shown eff k perm out declared all = elim (shown eff (sorted_keys eff.grants) k out all) [
    | inr (opened, opens, told) ↦
        let opens' =
          subst (λ x. open_clauses e (or_bare x) (clauses eff k) ≡ ok opened) declared opens in
        require-open k perm (clauses eff k) opened opens'
        ∙ flip (is_nil opened)
        ∙ ap (answer k) (sym told)
    | inl (absent, hidden) ↦ elim (Option-cases (lookup k eff.grants)) [
      | inl missing ↦ none_held eff k perm missing ∙ ap (answer k) (sym hidden)
      | inr (cs, held) ↦
          let there =
            contains_intro (sorted_keys eff.grants) k
              (mem_sorted_keys eff.grants k (lookup-mem k eff.grants held)) in
          absurd (ground (arith, absent, there))
    ]
  ]
    where
      flip :
          (b : Bool)
          → (if b then fault (forbidden_error k) else ok tt) ≡ answer k (if b then false else true)
      flip true = refl
      flip false = refl

  -- The payload of a subject whose access and whose permissions are these.
  told :
      (s : Subject) (eff : Effective) (r : Result (Map String PermissionAccess × List String))
      (out : MyAccess)
      → access_payload s eff r ≡ ok out
      → (unavailable : List String) × (r ≡ ok (out.permissions, unavailable))
  told s eff (fault x) out h = absurd (ground (arith, h))
  told s eff (ok (permissions, unavailable)) out h =
      (unavailable, ap (λ o. ok (o.permissions, unavailable)) (ok-injective h))

  -- When MyAccess answers a request, Require on the same cache lets the request through for a
  -- declared permission exactly when the answer lists it under its permissions, and forbids it
  -- when it does not.
  pub my_access-require :
      (t : ℕ × ℕ) (ctx : Option Principal) (c : Cache) (out : MyAccess) (id : String)
      (perm : Permission)
      → (my_access e t ctx c).0 ≡ ok out
      → lookup_permission e.cat id ≡ some perm
      → (require e t ctx id c).0 ≡ answer id (is_shown id out.permissions)
  unfolding my_access require prepare
  my_access-require t ctx c out id perm made declared = elim (Option-cases (principal_from ctx)) [
    | inl nobody ↦ absurd (ground (arith, nobody, made))
    | inr (p, somebody) ↦ elim (Result-cases (effective e t p.subject c).0) [
      | inr (x, failed) ↦ absurd (ground (arith, somebody, failed, made))
      | inl (eff, loaded) ↦
          let (unavailable, permissions) =
            told p.subject eff (show_all e eff (sorted_keys eff.grants)) out
              (ground (arith, somebody, loaded, made)) in
          let asked =
            require-shown eff id perm (out.permissions, unavailable) declared permissions in
          ground (arith, somebody, declared, loaded, asked)
    ]
  ]
