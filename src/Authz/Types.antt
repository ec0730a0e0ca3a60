-- ===== src/Authz/Types.antt =====
-- The values that authz/ passes around: hierarchy.go's Scope, role.go's RoleRef, Grant and Role,
-- principal.go, permission.go's Permission, qualifier.go, binding.go and access.go's Resource.
-- Labels, descriptions and creation times are display data and left out.
use go_core.Prelude.{
  String, ℤ, pos, is_positive, ◌≡◌, ◌↔◌, Bool, true, false, ◌&&◌, ◌||◌, not, List, Option, Map,
  Comparable, ◌==◌, arith, int_leb, xor, string_eq, int_eq,
}

pub record Scope : Type 0 where
  pub level : String
  pub id : ℤ

pub data Kind : Type 0 where
  user service : Kind
  unknown_kind : String → Kind

pub record Subject : Type 0 where
  pub kind : Kind
  pub id : ℤ

pub record Principal : Type 0 where
  pub subject : Subject
  pub location : ℤ

-- A Go `int` with three named values; any other is invalid.
abbrev pub Qualifier : Type 0
Qualifier = ℤ

abbrev pub qualifier_own : Qualifier
qualifier_own = pos 1

abbrev pub qualifier_own_location : Qualifier
qualifier_own_location = pos 2

abbrev pub qualifier_all : Qualifier
qualifier_all = pos 3

pub record RoleRef : Type 0 where
  pub id : ℤ
  pub key : String

pub record Grant : Type 0 where
  pub permission : String
  pub qualifier : Qualifier

pub record Permission : Type 0 where
  pub id : String
  pub sensitive : Bool
  pub system : Bool
  pub organization_only : Bool
  pub requires : List String
  pub record_type : String
  pub unowned_is_own : Bool
  pub feature : String
  pub attributes : List String

pub record Role : Type 0 where
  pub id : ℤ
  pub key : String
  pub name : String
  pub grants : List Grant
  pub attrs : Map String (List String)
  pub computed : Option (Permission → Bool)

pub record Binding : Type 0 where
  pub id : ℤ
  pub subject : Subject
  pub role : RoleRef
  pub scope : Scope
  pub created_by : ℤ

pub record Resource : Type 0 where
  pub scope : Scope
  pub ancestors : List Scope
  pub owner : ℤ
  pub co_owner : ℤ
  pub owner_location : ℤ
  pub attrs : Map String String

abbrev pub scope_beq : Scope → Scope → Bool
scope_beq s t = s.level == t.level && s.id == t.id

pub scope_beq_iff : (s t : Scope) → (scope_beq s t ≡ true) ↔ (s ≡ t)
scope_beq_iff s t = ground (arith, string_eq.agrees s.level t.level, int_eq.agrees s.id t.id)

instance abbrev pub scope_eq : Comparable Scope
scope_eq = record { test = scope_beq; agrees = scope_beq_iff }

abbrev pub role_ref_beq : RoleRef → RoleRef → Bool
role_ref_beq s t = s.id == t.id && s.key == t.key

pub role_ref_beq_iff : (s t : RoleRef) → (role_ref_beq s t ≡ true) ↔ (s ≡ t)
role_ref_beq_iff s t = ground (arith, string_eq.agrees s.key t.key, int_eq.agrees s.id t.id)

instance abbrev pub role_ref_eq : Comparable RoleRef
role_ref_eq = record { test = role_ref_beq; agrees = role_ref_beq_iff }

abbrev pub kind_beq : Kind → Kind → Bool
kind_beq user user = true
kind_beq service service = true
kind_beq (unknown_kind s) (unknown_kind t) = s == t
kind_beq _ _ = false

pub kind_beq_iff : (s t : Kind) → (kind_beq s t ≡ true) ↔ (s ≡ t)
kind_beq_iff user user = ground arith
kind_beq_iff user service = ground arith
kind_beq_iff user (unknown_kind t) = ground arith
kind_beq_iff service user = ground arith
kind_beq_iff service service = ground arith
kind_beq_iff service (unknown_kind t) = ground arith
kind_beq_iff (unknown_kind s) user = ground arith
kind_beq_iff (unknown_kind s) service = ground arith
kind_beq_iff (unknown_kind s) (unknown_kind t) = ground (arith, string_eq.agrees s t)

instance abbrev pub kind_eq : Comparable Kind
kind_eq = record { test = kind_beq; agrees = kind_beq_iff }

abbrev pub subject_beq : Subject → Subject → Bool
subject_beq s t = s.kind == t.kind && s.id == t.id

pub subject_beq_iff : (s t : Subject) → (subject_beq s t ≡ true) ↔ (s ≡ t)
subject_beq_iff s t = ground (arith, kind_eq.agrees s.kind t.kind, int_eq.agrees s.id t.id)

instance abbrev pub subject_eq : Comparable Subject
subject_eq = record { test = subject_beq; agrees = subject_beq_iff }

-- Scope.IsZero
abbrev pub scope_is_zero : Scope → Bool
scope_is_zero s = s.level == "" && s.id == pos 0

abbrev pub kind_valid : Kind → Bool
kind_valid k = k == user || k == service

-- Subject.Valid
abbrev pub subject_valid : Subject → Bool
subject_valid s = kind_valid s.kind && is_positive s.id

-- RoleRef.Valid: exactly one of ID and Key is set.
abbrev pub role_ref_valid : RoleRef → Bool
role_ref_valid r = xor (is_positive r.id) (not (r.key == ""))

-- Qualifier.Valid
abbrev pub qualifier_valid : Qualifier → Bool
qualifier_valid q = int_leb qualifier_own q && int_leb q qualifier_all

-- Qualifier.Covers
abbrev pub qualifier_covers : Qualifier → Qualifier → Bool
qualifier_covers q other = q == qualifier_all || q == other

-- Permission.Ownable
abbrev pub ownable : Permission → Bool
ownable p = not (p.record_type == "")
