-- ===== src/Router/Distance/Near.antt =====
-- router.h: what an epoch of telling and hearing rows does to them.
use networking_labs.Prelude.{
  ℕ, suc, ◌+◌, ◌≤◌, ◌≡◌, ◌≢◌, true, refl, sym, subst, ◌∙◌, inl, inr, List, [], ◌∷◌, some, ◌==◌,
  arith, get_elem?, get_elem?_lt, get_elem?-append_cases, length, All, All-append, All-get,
  Bool-cases,
}
use networking_labs.Router.Distance.{Dv, Fun, own, receive_dv}
use networking_labs.Router.Distance.Hearing.{
  Shrinks, Shrinks-refl, receive_dv-Shrinks, receive_dv_by,
}
use networking_labs.Router.Distance.Network.{Note, Network, note, with_dv}
use networking_labs.Router.Distance.Epochs.{
  way_end, way_len, IsWay, Talk, talks, listens, Talks, quiet, continued, Hears, IsFair, Settled,
}

module _ (n : ℕ) (cost : Fun (Fun ℕ)) where
  -- No distance of router i's row is above a way of at most h links.
  abbrev pub IsNear : ℕ → ℕ → Fun ℕ → Type 0
  IsNear h i row =
      1 ≤ i
      → i ≤ n
      → (ks : List ℕ) → length ks ≤ h
      → IsWay n cost i ks
      → row (way_end i ks) ≤ way_len cost i ks

  way_end_in :
      (i : ℕ) (ks : List ℕ)
      → 1 ≤ i
      → i ≤ n
      → IsWay n cost i ks
      → (1 ≤ way_end i ks) × (way_end i ks ≤ n)
  way_end_in i [] lo hi way = (lo, hi)
  way_end_in i (k ∷ ks) lo hi (k_lo, k_hi, other, linked, way) = way_end_in k ks k_lo k_hi way

  -- During an epoch that began with `old` notes and with rows of h links.
  record Epochal (version h old : ℕ) (w : Network) : Type 0 where
    settled : Settled cost version w
    near : (i : ℕ) → IsNear h i (own (w.routers i))
    fresh :
        (at : ℕ) (m : Note)
        → old ≤ at
        → get_elem? w.notes at ≡ some m
        → (m.version ≡ version) × IsNear h m.rid m.row

  Shrinks-Settled :
      {version : ℕ} (u w : Network)
      → w.notes ≡ u.notes
      → ((i : ℕ) → Shrinks (u.routers i) (w.routers i))
      → Settled cost version u
      → Settled cost version w
  Shrinks-Settled {version} u w same s x = record {
    ids = λ i. (s i).same_id ∙ x.ids i;
    links = λ i j. (s i).same_c j ∙ x.links i j;
    versions = λ i. (s i).same_version ∙ x.versions i;
    home = λ i. omega (arith, (s i).no_longer i, x.home i);
    no_newer = subst (All (λ (m : Note). m.version ≤ version)) (sym same) x.no_newer;
  }

  Shrinks-IsNear : (h i : ℕ) (v w : Dv) → Shrinks v w → IsNear h i (own v) → IsNear h i (own w)
  Shrinks-IsNear h i v w s near lo hi ks short way =
      omega (arith, near lo hi ks short way, s.no_longer (way_end i ks))

  with_dv-Shrinks :
      (u : Network) (i : ℕ) (v : Dv)
      → Shrinks (u.routers i) v
      → (j : ℕ) → Shrinks (u.routers j) ((with_dv u i v).routers j)
  with_dv-Shrinks u i v s j = elim (Bool-cases (i == j)) [
    | inl same ↦ rw same (subst (λ k. Shrinks (u.routers k) v) (ground arith) s)
    | inr other ↦ rw other (Shrinks-refl (u.routers j))
  ]

  module _ (version h old : ℕ) where
    listens-Shrinks :
        (u : Network) (i at : ℕ) (m : Note)
        → Epochal version h old u
        → get_elem? u.notes at ≡ some m
        → (u.routers i).router_id ≢ m.rid
        → (j : ℕ)
        → Shrinks
            (u.routers j)
            ((with_dv u i (receive_dv n m.rid m.row m.version (u.routers i)).0).routers j)
    listens-Shrinks u i at m e told other = with_dv-Shrinks u i _ (
        receive_dv-Shrinks n m.rid m.row (u.routers i) other m.version (
          omega (
            arith,
            e.settled.versions i,
            All-get (λ (m : Note). m.version ≤ version) u.notes at e.settled.no_newer told,
          )))

    Talk-Epochal : (u w : Network) → Talk n u w → Epochal version h old u → Epochal version h old w
    Talk-Epochal u w (talks i) e = record {
      settled = record {
        ids = e.settled.ids;
        links = e.settled.links;
        versions = e.settled.versions;
        home = e.settled.home;
        no_newer =
            All-append _ u.notes (note (u.routers i) ∷ []) e.settled.no_newer
              (omega (arith, e.settled.versions i), tt);
      };
      near = e.near;
      fresh = λ at m late there.
          elim (get_elem?-append_cases u.notes (note (u.routers i)) at there) [
            | inl before ↦ e.fresh at m late before
            | inr (last, same) ↦
                subst (λ m. (m.version ≡ version) × IsNear h m.rid m.row) same
                  (
                    e.settled.versions i,
                    subst (λ (k : ℕ). IsNear h k (own (u.routers i))) (sym (e.settled.ids i))
                        (e.near i),
                  )
          ];
    }
    Talk-Epochal u w (listens i at m told other) e =
        let s = listens-Shrinks u i at m e told other in
        record {
          settled = Shrinks-Settled u _ refl s e.settled;
          near = λ j. Shrinks-IsNear h j (u.routers j) _ (s j) (e.near j);
          fresh = e.fresh;
        }

    Talks-Epochal :
        (u w : Network) → Talks n u w → Epochal version h old u → Epochal version h old w
    Talks-Epochal u w quiet e = e
    Talks-Epochal u w (continued v run talk) e = Talk-Epochal v w talk (Talks-Epochal u v run e)

    -- A note of the epoch that is heard gives all ways by its router.
    heard_now :
        (v : Network) (i at : ℕ) (m : Note) (told : get_elem? v.notes at ≡ some m)
        (other : (v.routers i).router_id ≢ m.rid)
        → Epochal version h old v
        → old ≤ at
        → 1 ≤ m.rid
        → m.rid ≤ n
        → (ks : List ℕ) → length ks ≤ h
        → IsWay n cost m.rid ks
        → own
            ((with_dv v i (receive_dv n m.rid m.row m.version (v.routers i)).0).routers i)
            (way_end m.rid ks)
          ≤ cost i m.rid + way_len cost m.rid ks
    heard_now v i at m told other e late lo hi ks short way =
        let self : (i == i) ≡ true = ground arith in
        let (now, near) = e.fresh at m late told in
        let (end_lo, end_hi) = way_end_in m.rid ks lo hi way in
        let by =
          receive_dv_by n m.rid m.row (v.routers i) other m.version (way_end m.rid ks)
            (now ∙ sym (e.settled.versions i)) end_lo end_hi in
        rw self (omega (arith, by, near lo hi ks short way, e.settled.links i m.rid))

    heard_near :
        (u w : Network) (run : Talks n u w) (i k : ℕ)
        → Epochal version h old u
        → Hears old i k run
        → 1 ≤ k
        → k ≤ n
        → (ks : List ℕ) → length ks ≤ h
        → IsWay n cost k ks
        → own (w.routers i) (way_end k ks) ≤ cost i k + way_len cost k ks
    heard_near u w quiet i k e heard lo hi ks short way = elim heard [ ]
    heard_near u w (continued v run (talks j)) i k e heard lo hi ks short way =
        heard_near u v run i k e heard lo hi ks short way
    heard_near u w (continued v run (listens j at m told other)) i k e heard lo hi ks short way =
        let e' = Talks-Epochal u v run e in
        elim heard [
          | inl before ↦ omega (
            arith,
            heard_near u v run i k e before lo hi ks short way,
            (listens-Shrinks v j at m e' told other i).no_longer (way_end k ks),
          )
          | inr (same, rid, late) ↦
              subst
                (λ (i : ℕ).
                  own ((with_dv v j (receive_dv n m.rid m.row m.version (v.routers j)).0).routers i)
                    (way_end k ks)
                  ≤ cost i k + way_len cost k ks)
                same
                (subst
                  (λ (k : ℕ).
                    IsWay n cost k ks
                    → own
                        ((with_dv v j (receive_dv n m.rid m.row m.version (v.routers j)).0).routers
                          j)
                        (way_end k ks)
                      ≤ cost j k + way_len cost k ks)
                  rid (heard_now v j at m told other e' late (omega arith) (omega arith) ks short)
                  way)
        ]

  epoch_begins :
      (version h : ℕ) (u : Network)
      → Settled cost version u
      → ((i : ℕ) → IsNear h i (own (u.routers i)))
      → Epochal version h (length u.notes) u
  epoch_begins version h u settled near = record {
    settled = settled;
    near = near;
    fresh = λ at m late there. absurd (omega (arith, get_elem?_lt u.notes at there));
  }

  -- After a fair epoch the rows know the ways of one link more.
  pub epoch-IsNear :
      (version h : ℕ) (u w : Network) (run : Talks n u w)
      → IsFair cost run
      → Settled cost version u
      → ((i : ℕ) → IsNear h i (own (u.routers i)))
      → Settled cost version w × ((i : ℕ) → IsNear (suc h) i (own (w.routers i)))
  epoch-IsNear version h u w run fair settled near = (e.settled, further)
    where
      e : Epochal version h (length u.notes) w
      e = Talks-Epochal version h (length u.notes) u w run (epoch_begins version h u settled near)

      further : (i : ℕ) → IsNear (suc h) i (own (w.routers i))
      further i lo hi [] short way = omega (arith, e.settled.home i)
      further i lo hi (k ∷ ks) short (k_lo, k_hi, other, linked, way) =
          heard_near version h (length u.notes) u w run i k (epoch_begins version h u settled near)
            (fair i k lo hi k_lo k_hi other linked) k_lo k_hi ks (omega arith) way
