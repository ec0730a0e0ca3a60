-- ===== src/Authz/Errors.antt =====
-- authz/errors.go and the codes of apperr/code.go: errors as values. The English text of an error
-- is left out; what stays is what a caller can test: the code, the sentinel that it wraps, the name
-- that it is about, and the list of problems.
use go_core.Prelude.{String, ◌≡◌, refl, ap, Bool, true, false, List, [], ◌∷◌, arith, ◌⊎◌, inl, inr}

pub data Code : Type 0 where
  internal not_found bad_request unauthenticated permission_denied already_exists : Code

pub data Sentinel : Type 0 where
  no_principal forbidden escalation self_assignment last_admin unknown_permission : Sentinel
  role_not_found binding_not_found scope_not_found duplicate_binding role_in_use : Sentinel
  invalid_scope : Sentinel

pub data ProblemCode : Type 0 where
  p_unknown_permission unknown_attribute empty_attribute invalid_qualifier : ProblemCode
  qualifier_not_allowed missing_required required_too_narrow duplicate_grant : ProblemCode
  computed_with_grants invalid_role unknown_requirement requirement_cycle : ProblemCode
  organization_only invalid_identifier duplicate_permission inconsistent_metadata : ProblemCode

-- `detail` keeps the name that the source's text is about, or "".
pub record Problem : Type 0 where
  pub code : ProblemCode
  pub permission : String
  pub detail : String

pub data Error : Type 0 where
  sentinel : Sentinel → String → Error
  validation : List Problem → Error
  app : Code → Error → Error
  other : String → Error
  panic : String → Error
  diverged : Error

-- A Go call that returns a value and an error.
pub data Result {ℓ} (V : Type ℓ) : Type ℓ where
  fault : Error → Result V
  ok : V → Result V

-- `if err != nil { return err }` after a call, and without a value.
module _ {ℓ κ} {V : Type ℓ} {W : Type κ} where
  infixl 5 ◌>>=◌
  abbrev pub ◌>>=◌ : Result V → (V → Result W) → Result W
  fault x >>= next = fault x
  ok v >>= next = next v

module _ {κ} {W : Type κ} where
  infixl 5 ◌>>◌
  abbrev pub ◌>>◌ : Result (Unit {0}) → Result W → Result W
  fault x >> after = fault x
  ok _ >> after = after

-- `if !cond { return err }`
abbrev pub demand : Bool → Error → Result (Unit {0})
demand false x = fault x
demand true x = ok tt

-- fmt.Errorf("…: %w", err) and apperr.Internal(err) around a failed call.
abbrev pub wrap_error {ℓ} : {A : Type ℓ} → (Error → Error) → Result A → Result A
wrap_error f (ok a) = ok a
wrap_error f (fault e) = fault (f e)

abbrev pub sentinel_beq : Sentinel → Sentinel → Bool
sentinel_beq no_principal no_principal = true
sentinel_beq forbidden forbidden = true
sentinel_beq escalation escalation = true
sentinel_beq self_assignment self_assignment = true
sentinel_beq last_admin last_admin = true
sentinel_beq unknown_permission unknown_permission = true
sentinel_beq role_not_found role_not_found = true
sentinel_beq binding_not_found binding_not_found = true
sentinel_beq scope_not_found scope_not_found = true
sentinel_beq duplicate_binding duplicate_binding = true
sentinel_beq role_in_use role_in_use = true
sentinel_beq invalid_scope invalid_scope = true
sentinel_beq _ _ = false

-- errors.Is: the sentinel anywhere in the chain of wrapped errors.
abbrev pub is_error : Error → Sentinel → Bool
is_error (sentinel s _) t = sentinel_beq s t
is_error (validation _) t = false
is_error (app _ e) t = is_error e t
is_error (other _) t = false
is_error (panic _) t = false
is_error diverged t = false

abbrev pub internal_error : Error → Error
internal_error e = app internal e

abbrev pub bad_request_from : Error → Error
bad_request_from e = app bad_request e

abbrev pub forbidden_error : String → Error
forbidden_error permission = app permission_denied (sentinel forbidden permission)

abbrev pub unauthenticated_error : Error
unauthenticated_error = app unauthenticated (sentinel no_principal "")

abbrev pub escalation_error : String → Error
escalation_error permission = app permission_denied (sentinel escalation permission)

-- asValidation
abbrev pub as_validation : List Problem → Result (Unit {0})
as_validation [] = ok tt
as_validation (p ∷ ps) = fault (validation (p ∷ ps))

-- Where a chain of calls succeeds, its first call did.
pub >>=-eq-ok {ℓ κ} :
    {V : Type ℓ} {W : Type κ} (call : Result V) (next : V → Result W) {w : W}
    → (call >>= next) ≡ ok w
    → (v : V) × (call ≡ ok v) × (next v ≡ ok w)
>>=-eq-ok (fault x) next done = absurd (ground arith)
>>=-eq-ok (ok v) next done = (v, refl, done)

pub Result-cases {ℓ} :
    {A : Type ℓ} (r : Result A) → ((a : A) × (r ≡ ok a)) ⊎ ((e : Error) × (r ≡ fault e))
Result-cases (ok a) = inl (a, refl)
Result-cases (fault e) = inr (e, refl)

pub ok-injective {ℓ} : {A : Type ℓ} {a b : A} → ok a ≡ ok b → a ≡ b
ok-injective {A = A} {a = a} p = ap (or_else a) p
  where
    or_else : A → Result A → A
    or_else d (ok x) = x
    or_else d (fault e) = d

-- Both halves of a successful sequence succeed.
pub first_ok : (m k : Result (Unit {0})) → (m >> k) ≡ ok tt → m ≡ ok tt
first_ok (ok tt) k h = refl
first_ok (fault e) k h = absurd (ground arith)

pub rest_ok {ℓ} :
    {B : Type ℓ} (m : Result (Unit {0})) (k : Result B) {b : B} → (m >> k) ≡ ok b → k ≡ ok b
rest_ok (ok x) k h = h
rest_ok (fault e) k h = absurd (ground arith)

pub both_ok {ℓ} :
    {B : Type ℓ} (m : Result (Unit {0})) (k : Result B) {b : B}
    → (m >> k) ≡ ok b
    → (m ≡ ok tt) × (k ≡ ok b)
both_ok (ok tt) k h = (refl, h)
both_ok (fault e) k h = absurd (ground arith)

pub demand_passed : (b : Bool) (e : Error) → demand b e ≡ ok tt → b ≡ true
demand_passed true e h = refl
demand_passed false e h = absurd (ground arith)
