-- ===== src/Event/Tables/Ids.antt =====
-- The ids that the database has given.
use go_core.Prelude.{
  mem_append_left, mem_append_right, ℕ, zero, suc, ◌≤◌, ◌<◌, inl, inr, Memᴰ, mem_append, mem_cases,
  nat_beq, nat_beq_iff, Bool-cases, arith,
}
use go_core.Event.Tables.{ids_to}

pub ids_to_elim : (n : ℕ) {id : ℕ} → Memᴰ id (ids_to n) → id ≤ n
ids_to_elim zero m = elim m [ ]
ids_to_elim (suc n) m = elim (mem_append (ids_to n) m) [
  | inl old ↦ omega (arith, ids_to_elim n old)
  | inr new ↦ elim (mem_cases new) [ inl same ↦ omega arith | inr past ↦ elim past [ ] ]
]

pub ids_to_intro : (n id : ℕ) → 0 < id → id ≤ n → Memᴰ id (ids_to n)
ids_to_intro zero id above below = absurd (omega arith)
ids_to_intro (suc n) id above below = elim (Bool-cases (nat_beq id (suc n))) [
  | inl last ↦ mem_append_right (ids_to n) _ (Memᴰ.head ((nat_beq_iff id (suc n)).0 last))
  | inr earlier ↦ mem_append_left (ids_to n) _ (ids_to_intro n id above (ground arith))
]
