-- ===== src/Router/Distance/Hearing.antt =====
-- router.h: what a neighbour's row of the same version does to the own row.
use networking_labs.Prelude.{
  ℕ, ◌+◌, ◌≤◌, ◌<◌, ◌≡◌, ◌≢◌, refl, sym, subst, true, false, ltb, arith, inl, inr, Bool-cases,
}
use networking_labs.Router.Distance.{Dv, Fun, own, put, update_dv, receive_dv}
use networking_labs.Router.Distance.Relax.{update_dv-Same, update_dv_row}

-- The links, the number and the version are as before, and no distance is longer.
pub record Shrinks (v w : Dv) : Type 0 where
  pub same_id : w.router_id ≡ v.router_id
  pub same_version : w.version ≡ v.version
  pub same_c : (i : ℕ) → w.c i ≡ v.c i
  pub no_longer : (j : ℕ) → own w j ≤ own v j

pub Shrinks-refl : (v : Dv) → Shrinks v v
Shrinks-refl v = record {
  same_id = refl;
  same_version = refl;
  same_c = λ i. refl;
  no_longer = λ j. omega arith;
}

-- With the neighbour's row in its place.
abbrev heard_dv : Dv → ℕ → Fun ℕ → Dv
heard_dv v rid row = record v { d = put v.d rid row }

module _ (n rid : ℕ) (row : Fun ℕ) (v : Dv) (other : v.router_id ≢ rid) where
  heard_own : (j : ℕ) → own (heard_dv v rid row) j ≡ own v j
  heard_own j = ground arith

  heard_row : (j : ℕ) → (heard_dv v rid row).d rid j ≡ row j
  heard_row j = ground arith

  receive_dv_now :
      (version : ℕ)
      → version ≡ v.version
      → receive_dv n rid row version v ≡ update_dv n rid (heard_dv v rid row)
  unfolding receive_dv
  receive_dv_now version now =
      let current : ltb version v.version ≡ false = ground arith in
      let same : ltb v.version version ≡ false = ground arith in rw (current, same) refl

  receive_dv_old : (version : ℕ) → version < v.version → receive_dv n rid row version v ≡ (v, false)
  unfolding receive_dv
  receive_dv_old version older =
      let old : ltb version v.version ≡ true = ground arith in rw old refl

  update_dv-Shrinks : Shrinks v (update_dv n rid (heard_dv v rid row)).0
  update_dv-Shrinks =
      let (same, flagged) = update_dv-Same n rid (heard_dv v rid row) in
      record {
        same_id = same.same_id;
        same_version = same.same_version;
        same_c = same.same_c;
        no_longer = λ j. omega (arith, flagged.shorter j, heard_own j);
      }

  -- A row that is not newer leaves the links and the version, and makes no distance longer.
  pub receive_dv-Shrinks :
      (version : ℕ) → version ≤ v.version → Shrinks v (receive_dv n rid row version v).0
  receive_dv-Shrinks version bound = elim (Bool-cases (ltb version v.version)) [
    | inl old ↦
        subst (λ x. Shrinks v x.0) (sym (receive_dv_old version (ground arith))) (Shrinks-refl v)
    | inr now ↦
        subst (λ x. Shrinks v x.0) (sym (receive_dv_now version (ground arith))) update_dv-Shrinks
  ]

  -- A row of the same version gives every router the way by the neighbour.
  pub receive_dv_by :
      (version j : ℕ)
      → version ≡ v.version
      → 1 ≤ j
      → j ≤ n
      → own (receive_dv n rid row version v).0 j ≤ v.c rid + row j
  receive_dv_by version j now lo hi =
      subst (λ x. own x.0 j ≤ v.c rid + row j) (sym (receive_dv_now version now))
        (ground (arith, update_dv_row n rid j (heard_dv v rid row) other, heard_row j))
