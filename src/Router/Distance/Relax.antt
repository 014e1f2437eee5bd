-- ===== src/Router/Distance/Relax.antt =====
-- router.h: what the two loops of `updateDV` compute.
use Prim.Native.Nat.{min}
use networking_labs.Prelude.{
  ℕ, zero, suc, ◌+◌, ◌≤◌, ◌<◌, ◌≡◌, ◌≢◌, ◌^◌, refl, sym, ◌∙◌, Bool, true, false, ◌&&◌, ltb, leb,
  ◌==◌, if◌then◌else◌, arith, ◌⊎◌, ◌↔◌, inl, inr, Bool-cases,
}
use networking_labs.Router.Distance.{Dv, own, improve, sum_int, direct_loop, jump_loop, update_dv}

-- What a loop leaves alone.
pub record Same (v w : Dv) : Type 0 where
  pub same_c : (i : ℕ) → w.c i ≡ v.c i
  pub same_id : w.router_id ≡ v.router_id
  pub same_version : w.version ≡ v.version
  pub same_rows : (k i : ℕ) → v.router_id ≢ k → w.d k i ≡ v.d k i

improve-Same : (i hop len : ℕ) (x : Dv × Bool) → Same x.0 (improve i hop len x).0
improve-Same i hop len x = record {
  same_c = λ j. ground arith;
  same_id = ground arith;
  same_version = ground arith;
  same_rows = λ k j ne. ground arith;
}

improve-own :
    (i hop len j : ℕ) (x : Dv × Bool)
    → own (improve i hop len x).0 j ≡ (if i == j then min len (own x.0 j) else own x.0 j)
improve-own i hop len j x = ground arith

-- The flag says whether a distance has become shorter; none becomes longer.
pub record Flagged (x y : Dv × Bool) : Type 0 where
  pub shorter : (j : ℕ) → own y.0 j ≤ own x.0 j
  pub quiet : y.1 ≡ false → (x.1 ≡ false) × ((j : ℕ) → own y.0 j ≡ own x.0 j)
  pub loud : y.1 ≡ true → (x.1 ≡ true) ⊎ ((j : ℕ) × (own y.0 j < own x.0 j))

improve-Flagged : (i hop len : ℕ) (x : Dv × Bool) → Flagged x (improve i hop len x)
improve-Flagged i hop len x = elim (Bool-cases (ltb len (own x.0 i))) [
  | inl better ↦ rw better (record {
    shorter = λ j. ground arith;
    quiet = λ q. absurd (ground arith);
    loud = λ q. inr (i, ground arith);
  })
  | inr no_better ↦
      rw no_better
        (record { shorter = λ j. omega arith; quiet = λ q. (q, λ j. refl); loud = λ q. inl q })
]

Flagged-trans : {x y z : Dv × Bool} → Flagged x y → Flagged y z → Flagged x z
Flagged-trans f g = record {
  shorter = λ j. omega (arith, f.shorter j, g.shorter j);
  quiet = λ q.
      let (still, same) = g.quiet q in
      let (still', same') = f.quiet still in (still', λ j. same j ∙ same' j);
  loud = λ q. elim (g.loud q) [
    | inl before ↦ elim (f.loud before) [
      | inl earlier ↦ inl earlier
      | inr (j, less) ↦ inr (j, omega (arith, less, g.shorter j))
    ]
    | inr (j, less) ↦ inr (j, omega (arith, less, f.shorter j))
  ];
}

Same-trans : {v w u : Dv} → Same v w → Same w u → Same v u
Same-trans f g = record {
  same_c = λ i. g.same_c i ∙ f.same_c i;
  same_id = g.same_id ∙ f.same_id;
  same_version = g.same_version ∙ f.same_version;
  same_rows = λ k i ne. g.same_rows k i (λ e. ne (sym f.same_id ∙ e)) ∙ f.same_rows k i ne;
}

Same-refl : (v : Dv) → Same v v
Same-refl v = record {
  same_c = λ i. refl;
  same_id = refl;
  same_version = refl;
  same_rows = λ k i ne. refl;
}

Flagged-refl : (x : Dv × Bool) → Flagged x x
Flagged-refl x = record {
  shorter = λ j. omega arith;
  quiet = λ q. (q, λ j. refl);
  loud = λ q. inl q;
}

sum_int-Same : (len : ℕ) (x : Dv × Bool) → Same x.0 (sum_int len x).0 × Flagged x (sum_int len x)
sum_int-Same len x = (
  record { same_c = λ i. refl; same_id = refl; same_version = refl; same_rows = λ k i ne. refl },
  record { shorter = λ j. omega arith; quiet = λ q. (q, λ j. refl); loud = λ q. inl q },
)

direct-Same :
    (n i : ℕ) (x : Dv × Bool) → Same x.0 (direct_loop n i x).0 × Flagged x (direct_loop n i x)
unfolding direct_loop
direct-Same zero i x = (Same-refl x.0, Flagged-refl x)
direct-Same (suc n) i x =
    let (s, f) = direct-Same n (i + 1) (improve i i (x.0.c i) x) in
    (Same-trans (improve-Same i i (x.0.c i) x) s, Flagged-trans (improve-Flagged i i (x.0.c i) x) f)

direct-own :
    (n i j : ℕ) (x : Dv × Bool)
    → own (direct_loop n i x).0 j
      ≡ (if leb i j && ltb j (i + n) then min (x.0.c j) (own x.0 j) else own x.0 j)
unfolding direct_loop
direct-own zero i j x = ground arith
direct-own (suc n) i j x = ground (
  arith,
  direct-own n (i + 1) j (improve i i (x.0.c i) x),
  improve-own i i (x.0.c i) j x,
  (improve-Same i i (x.0.c i) x).same_c j,
)

jump-Same :
    (tgt n i : ℕ) (x : Dv × Bool)
    → Same x.0 (jump_loop tgt n i x).0 × Flagged x (jump_loop tgt n i x)
unfolding jump_loop
jump-Same tgt zero i x = (Same-refl x.0, Flagged-refl x)
jump-Same tgt (suc n) i x =
    let len = x.0.c tgt + x.0.d tgt i in
    let (s₁, f₁) = sum_int-Same len x in
    let x' = sum_int len x in
    let (s, f) = jump-Same tgt n (i + 1) (improve i tgt len x') in
    (
      Same-trans s₁ (Same-trans (improve-Same i tgt len x') s),
      Flagged-trans f₁ (Flagged-trans (improve-Flagged i tgt len x') f),
    )

jump-own :
    (tgt n i j : ℕ) (x : Dv × Bool)
    → x.0.router_id ≢ tgt
    → own (jump_loop tgt n i x).0 j
      ≡ (if leb i j && ltb j (i + n) then min (x.0.c tgt + x.0.d tgt j) (own x.0 j) else own x.0 j)
unfolding jump_loop
jump-own tgt zero i j x other = ground arith
jump-own tgt (suc n) i j x other =
    let len = x.0.c tgt + x.0.d tgt i in
    let x' = sum_int len x in
    let s = improve-Same i tgt len x' in
    ground (
      arith,
      jump-own tgt n (i + 1) j (improve i tgt len x') (λ e. other (sym s.same_id ∙ e)),
      improve-own i tgt len j x',
      s.same_c tgt,
      s.same_rows tgt j other,
    )

pub update_dv-Same :
    (n tgt : ℕ) (v : Dv) → Same v (update_dv n tgt v).0 × Flagged (v, false) (update_dv n tgt v)
unfolding update_dv
update_dv-Same n tgt v =
    let (s, f) = direct-Same n 1 (v, false) in
    let (s', f') = jump-Same tgt n 1 (direct_loop n 1 (v, false)) in
    (Same-trans s s', Flagged-trans f f')

-- The sums as natural numbers.
pub update_dv_row :
    (n tgt j : ℕ) (v : Dv)
    → v.router_id ≢ tgt
    → own (update_dv n tgt v).0 j
      ≡ (if leb 1 j && leb j n then min (v.c tgt + v.d tgt j) (min (v.c j) (own v j)) else own v j)
unfolding update_dv
update_dv_row n tgt j v other =
    let x = direct_loop n 1 (v, false) in
    let (s, f) = direct-Same n 1 (v, false) in
    ground (
      arith,
      jump-own tgt n 1 j x (λ e. other (sym s.same_id ∙ e)),
      direct-own n 1 j (v, false),
      s.same_c tgt,
      s.same_rows tgt j other,
    )

improve_overflow : (i hop len : ℕ) (x : Dv × Bool) → (improve i hop len x).0.overflow ≡ x.0.overflow
improve_overflow i hop len x = ground arith

direct_overflow : (n i : ℕ) (x : Dv × Bool) → (direct_loop n i x).0.overflow ≡ x.0.overflow
unfolding direct_loop
direct_overflow zero i x = refl
direct_overflow (suc n) i x =
    direct_overflow n (i + 1) (improve i i (x.0.c i) x) ∙ improve_overflow i i (x.0.c i) x

jump_overflow :
    (tgt n i : ℕ) (x : Dv × Bool)
    → x.0.router_id ≢ tgt
    → ((j : ℕ) → i ≤ j → j < i + n → x.0.c tgt + x.0.d tgt j < 2 ^ 31)
    → (jump_loop tgt n i x).0.overflow ≡ x.0.overflow
unfolding jump_loop
jump_overflow tgt zero i x other fits = refl
jump_overflow tgt (suc n) i x other fits =
    let len = x.0.c tgt + x.0.d tgt i in
    let x' = sum_int len x in
    let s = improve-Same i tgt len x' in
    let rest =
      jump_overflow tgt n (i + 1) (improve i tgt len x') (λ e. other (sym s.same_id ∙ e))
        (λ j lo hi.
          omega
            (arith, s.same_c tgt, s.same_rows tgt j other, fits j (omega arith) (omega arith))) in
    rest ∙ improve_overflow i tgt len x' ∙ ground (arith, fits i (omega arith) (omega arith))

-- For another router tgt, where for every i from 1 to the number of routers the cost of the link
-- to tgt and tgt's distance to i add up to less than 2^31, the two loops of updateDV have no sum
-- beyond an int and make each distance of the own row, from 1 to the number of routers, the least
-- of what it was, the direct link and the way by tgt, and leave the others.
pub update_dv_exact :
    (n tgt : ℕ) (v : Dv)
    → v.router_id ≢ tgt
    → ((j : ℕ) → 1 ≤ j → j ≤ n → v.c tgt + v.d tgt j < 2 ^ 31)
    → ((update_dv n tgt v).0.overflow ≡ v.overflow)
      × ((j : ℕ)
          → own (update_dv n tgt v).0 j ≡ (
              if leb 1 j && leb j n
              then min (v.c tgt + v.d tgt j) (min (v.c j) (own v j))
              else own v j))
unfolding update_dv
update_dv_exact n tgt v other fits =
    let x = direct_loop n 1 (v, false) in
    let (s, f) = direct-Same n 1 (v, false) in
    (
      jump_overflow tgt n 1 x (λ e. other (sym s.same_id ∙ e))
            (λ j lo hi.
              omega
                (arith, s.same_c tgt, s.same_rows tgt j other, fits j (omega arith) (omega arith)))
          ∙ direct_overflow n 1 (v, false),
      λ j. update_dv_row n tgt j v other,
    )

-- UpdateDV says that it changed something just when some distance of the own row has become
-- shorter.
pub update_dv_changed :
    (n tgt : ℕ) (v : Dv)
    → ((update_dv n tgt v).1 ≡ true) ↔ ((j : ℕ) × (own (update_dv n tgt v).0 j < own v j))
update_dv_changed n tgt v =
    let f = (update_dv-Same n tgt v).1 in
    (
      λ set. elim (f.loud set) [
        | inl never ↦ absurd (ground (arith, never))
        | inr some_shorter ↦ some_shorter
      ],
      λ (j, less). elim (Bool-cases (update_dv n tgt v).1) [
        | inl set ↦ set
        | inr clear ↦ absurd (omega (arith, (f.quiet clear).1 j, less))
      ],
    )
