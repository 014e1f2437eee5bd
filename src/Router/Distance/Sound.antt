-- ===== src/Router/Distance/Sound.antt =====
-- router.h: no distance is ever below the true one.
use networking_labs.Prelude.{
  ℕ, ◌+◌, ◌≤◌, ◌<◌, ◌≡◌, ◌≢◌, false, refl, ap, ◌∙◌, Option, ltb, ◌==◌, arith, inl, inr, Bool-cases,
}
use native.Mathlib.Decide.{ℕ_discrete}
use networking_labs.Router.Distance.{
  Dv, Fun, own, no_path, put, update_dv, receive_dv, update_c, init_dv, link_cost, reset,
}
use networking_labs.Router.Distance.Relax.{update_dv-Same, update_dv_row, update_dv_exact}

-- Distances between routers; `no_path` is as far as can be.
pub record IsMetric (dist : Fun (Fun ℕ)) : Type 0 where
  pub self : (a : ℕ) → dist a a ≡ 0
  pub triangle : (a b c : ℕ) → dist a c ≤ dist a b + dist b c
  pub capped : (a b : ℕ) → dist a b ≤ no_path

-- Of the distances `dist` of each version: no link and no entry is below those of the own version,
-- none is above `no_path`, and no sum has been beyond an `int`.
pub record IsSound (dist : ℕ → Fun (Fun ℕ)) (v : Dv) : Type 0 where
  pub links : (i : ℕ) → dist v.version v.router_id i ≤ v.c i
  pub links_fit : (i : ℕ) → v.c i ≤ no_path
  pub rows : (k i : ℕ) → dist v.version k i ≤ v.d k i
  pub rows_fit : (k i : ℕ) → v.d k i ≤ no_path
  pub whole : v.overflow ≡ false

-- No link is below the distances of a version that is newer.
abbrev pub IsPriced : (ℕ → Fun (Fun ℕ)) → ℕ → Dv → Type 0
IsPriced dist version v = v.version < version → (i : ℕ) → dist version v.router_id i ≤ v.c i

-- A new cost of a link: a lower one is not below the distance of the version, and with a higher one
-- no link is below the distances of the version that follows.
pub record IsCost (dist : ℕ → Fun (Fun ℕ)) (tgt last : ℕ) (value : Option ℕ) (v : Dv) : Type 0 where
  pub fits : link_cost value ≤ no_path
  pub shortens : link_cost value < v.c tgt → dist v.version v.router_id tgt ≤ link_cost value
  pub lengthens :
      v.c tgt < link_cost value
      → (i : ℕ) → dist (last + 1) v.router_id i ≤ put v.c tgt (link_cost value) i

module _ {dist : ℕ → Fun (Fun ℕ)} (metric : (x : ℕ) → IsMetric (dist x)) where
  pub init_dv-IsSound : (me : ℕ) → IsSound dist (init_dv me)
  unfolding init_dv
  init_dv-IsSound me = record {
    links = λ i. ground (arith, (metric 0).capped me i, (metric 0).self i);
    links_fit = λ i. ground arith;
    rows = λ k i. ground (arith, (metric 0).capped k i, (metric 0).self k);
    rows_fit = λ k i. ground arith;
    whole = refl;
  }

  -- Another version, with all rows forgotten.
  reset-IsSound :
      (v : Dv) (version : ℕ)
      → ((i : ℕ) → dist version v.router_id i ≤ v.c i)
      → IsSound dist v
      → IsSound dist (reset (record v { version = version }))
  reset-IsSound v version priced s = record {
    links = priced;
    links_fit = s.links_fit;
    rows = λ k i. ground (arith, (metric version).capped k i, (metric version).self k);
    rows_fit = λ k i. ground arith;
    whole = s.whole;
  }

  update_dv-IsSound :
      (n tgt : ℕ) (v : Dv) → v.router_id ≢ tgt → IsSound dist v → IsSound dist (update_dv n tgt v).0
  update_dv-IsSound n tgt v other s =
      let (same, flagged) = update_dv-Same n tgt v in
      let w = (update_dv n tgt v).0 in
      let me = v.router_id in
      let row : (i : ℕ) → dist v.version me i ≤ own w i = λ i. ground (
        arith,
        update_dv_row n tgt i v other,
        s.links i,
        s.links tgt,
        s.rows me i,
        s.rows tgt i,
        (metric v.version).triangle me tgt i,
      ) in
      record {
        links = λ i. omega (
          arith,
          same.same_c i,
          ap (λ k. dist k w.router_id i) same.same_version,
          ap (λ k. dist v.version k i) same.same_id,
          s.links i,
        );
        links_fit = λ i. omega (arith, same.same_c i, s.links_fit i);
        rows = λ k i. elim (ℕ_discrete me k) [
          | yes here ↦ omega (
            arith,
            row i,
            ap (λ x. dist x k i) same.same_version,
            ap (λ k. dist v.version k i) here,
            ap (λ k. w.d k i) (same.same_id ∙ here),
          )
          | no there ↦
              omega (
                arith,
                ap (λ x. dist x k i) same.same_version,
                same.same_rows k i there,
                s.rows k i,
              )
        ];
        rows_fit = λ k i. elim (ℕ_discrete me k) [
          | yes here ↦
              omega
                (arith, flagged.shorter i, s.rows_fit me i, ap (λ k. w.d k i) (same.same_id ∙ here))
          | no there ↦ omega (arith, same.same_rows k i there, s.rows_fit k i)
        ];
        whole =
            (update_dv_exact n tgt v other
              (λ j lo hi. omega (arith, s.links_fit tgt, s.rows_fit tgt j))).0
            ∙ s.whole;
      }

  -- Where a link and an entry are not below the distances of the version, and the row of the
  -- neighbour not below those of its own, none is after the row has been taken in.
  pub receive_dv-IsSound :
      (n ex_rid version : ℕ) (ex_dv : Fun ℕ) (v : Dv)
      → v.router_id ≢ ex_rid
      → ((i : ℕ) → (dist version ex_rid i ≤ ex_dv i) × (ex_dv i ≤ no_path))
      → IsPriced dist version v
      → IsSound dist v
      → IsSound dist (receive_dv n ex_rid ex_dv version v).0
  unfolding receive_dv
  receive_dv-IsSound n ex_rid version ex_dv v other heard priced s =
      elim (Bool-cases (ltb version v.version)) [
        | inl old ↦ rw old s
        | inr current ↦ elim (Bool-cases (ltb v.version version)) [
          | inl newer ↦
              rw (current, newer)
                (update_dv-IsSound n ex_rid _ other (
                  taken (reset (record v { version = version })) refl
                    (reset-IsSound v version (priced (ground arith)) s)))
          | inr now ↦
              rw (current, now) (update_dv-IsSound n ex_rid _ other (taken v (ground arith) s))
        ]
      ]
    where
      taken :
          (u : Dv)
          → u.version ≡ version
          → IsSound dist u
          → IsSound dist (record u { d = put u.d ex_rid ex_dv })
      taken u e t = record {
        links = t.links;
        links_fit = t.links_fit;
        rows = λ k i. ground (arith, t.rows k i, (heard i).0, ap (λ x. dist x ex_rid i) e);
        rows_fit = λ k i. ground (arith, t.rows_fit k i, (heard i).1);
        whole = t.whole;
      }

  with_cost :
      (tgt len : ℕ) (u : Dv)
      → dist u.version u.router_id tgt ≤ len
      → len ≤ no_path
      → IsSound dist u
      → IsSound dist (record u { c = put u.c tgt len })
  with_cost tgt len u h fits s = record {
    links = λ i. ground (arith, s.links i, h);
    links_fit = λ i. ground (arith, s.links_fit i, fits);
    rows = s.rows;
    rows_fit = s.rows_fit;
    whole = s.whole;
  }

  -- Where no link and no entry is below the distances of the version, none is after the change of
  -- the cost of a link.
  pub update_c-IsSound :
      (n tgt last : ℕ) (value : Option ℕ) (v : Dv)
      → v.router_id ≢ tgt
      → IsCost dist tgt last value v
      → IsSound dist v
      → IsSound dist (update_c n tgt value last v).1
  unfolding update_c
  update_c-IsSound n tgt last value v other cost s =
      let len = link_cost value in
      elim (Bool-cases (v.c tgt == len)) [
        | inl same ↦ rw same s
        | inr changes ↦ elim (Bool-cases (ltb len (v.c tgt))) [
          | inl shorter ↦
              rw (changes, shorter)
                (update_dv-IsSound n tgt (record v { c = put v.c tgt len }) other
                  (with_cost tgt len v (cost.shortens (ground arith)) cost.fits s))
          | inr longer ↦
              rw (changes, longer)
                (update_dv-IsSound n tgt _ other
                  (reset_raised len refl (cost.lengthens (ground arith))))
        ]
      ]
    where
      reset_raised :
          (len : ℕ)
          → len ≡ link_cost value
          → ((i : ℕ) → dist (last + 1) v.router_id i ≤ put v.c tgt len i)
          → IsSound dist (record (reset (record v { version = last + 1 })) { c = put v.c tgt len })
      reset_raised len e priced = record {
        links = priced;
        links_fit = λ i. ground (arith, s.links_fit i, cost.fits);
        rows = λ k i. ground (arith, (metric (last + 1)).capped k i, (metric (last + 1)).self k);
        rows_fit = λ k i. ground arith;
        whole = s.whole;
      }
