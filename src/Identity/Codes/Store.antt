-- ===== src/Identity/Codes/Store.antt =====
-- identity/gormstore/codes.go: the rows of one account and purpose, the newest first. The columns hold whole
-- seconds.
use go_core.Prelude.{
  ℕ, suc, min, String, nat_eq, Bool, true, false, ◌&&◌, not, [], ◌∷◌, Option, none, some, Map,
  lookup, insert, ltb, nat_beq, if◌then◌else◌,
}
use go_core.Event.Tables.{whole, is_set}

-- Code, less its key and the caller's address. The column of the attempts is a uint8; Verify counts up to
-- the limit of the rules only.
pub record Code : Type 0 where
  pub target : String
  pub hash : String
  pub attempts : ℕ
  pub expires_at : ℕ
  pub consumed_at : Option ℕ
  pub invalidated_at : Option ℕ
  pub created_at : ℕ

pub record CodeTable : Type 0 where
  pub last_id : ℕ
  pub codes : Map ℕ Code

-- Latest: the code of the highest id.
abbrev pub latest : CodeTable → Option (ℕ × Code)
latest t = first t.codes
  where
    first : Map ℕ Code → Option (ℕ × Code)
    first [] = none
    first (entry ∷ codes) = some entry

-- IssuedSince: how many, and the creation time of the oldest (0 when there are none).
abbrev pub count_since : ℕ → Map ℕ Code → ℕ × ℕ
count_since since [] = (0, 0)
count_since since ((id, c) ∷ codes) =
    let (n, oldest) = count_since since codes in
    if ltb since c.created_at
    then (suc n, if nat_beq n 0 then c.created_at else min c.created_at oldest)
    else (n, oldest)

unfoldable pub issued_since : ℕ → CodeTable → ℕ × ℕ
unfolding whole
issued_since since t = count_since (whole since) t.codes

-- Neither consumed nor invalidated.
abbrev pub is_open : Code → Bool
is_open c = not (is_set c.consumed_at) && not (is_set c.invalidated_at)

-- ends
abbrev pub ended : ℕ → Code → Code
ended now c = if is_open c then record c { invalidated_at = some (whole now) } else c

unfoldable pub end_all : ℕ → Map ℕ Code → Map ℕ Code
end_all now [] = []
end_all now ((id, c) ∷ codes) = (id, ended now c) ∷ end_all now codes

-- InvalidateLive
unfoldable pub invalidate_live : ℕ → CodeTable → CodeTable
unfolding end_all
invalidate_live now t = record t { codes = end_all now t.codes }

-- Issue: the live codes end, and the new one is stored with the next id.
unfoldable pub issue_code : String → String → ℕ → ℕ → CodeTable → Code × CodeTable
unfolding end_all whole
issue_code target hash expires now t =
    let code : Code = record {
      target = target;
      hash = hash;
      attempts = 0;
      expires_at = whole expires;
      consumed_at = none;
      invalidated_at = none;
      created_at = whole now;
    } in
    (code, record { last_id = suc t.last_id; codes = (suc t.last_id, code) ∷ end_all now t.codes })

abbrev pub whole_or_nil : Option ℕ → Option ℕ
whole_or_nil none = none
whole_or_nil (some at) = some (whole at)

-- SaveVerification: UPDATE … WHERE id = id AND consumed_at IS NULL AND invalidated_at IS NULL AND attempts =
-- read, and whether it matched a row.
unfoldable pub save_verification : ℕ → Code → ℕ → CodeTable → Bool × CodeTable
save_verification id c read t = elim (lookup id t.codes) [
  | none ↦ (false, t)
  | some row ↦
      if is_open row && nat_beq row.attempts read
      then (
        true,
        record t {
          codes =
              insert id
                (record row {
                  attempts = c.attempts;
                  consumed_at = whole_or_nil c.consumed_at;
                  invalidated_at = whole_or_nil c.invalidated_at;
                })
                t.codes;
        },
      )
      else (false, t)
]
