-- ===== src/Router/Distance/Tests.antt =====
-- Three routers in a line, and what they have heard after two epochs.
use networking_labs.Prelude.{
  ℕ, ◌≤◌, ◌<◌, ◌≡◌, ◌≢◌, some, refl, false, sym, ◌⊎◌, inl, inr, [], ◌∷◌, ◌++◌, ◌&&◌, ◌||◌, ◌==◌,
  if◌then◌else◌, arith,
}
use networking_labs.Router.Distance.{
  Fun, own, no_path, init_dv, receive_dv, update_dv, direct_loop, jump_loop, update_c, link_cost,
}
use networking_labs.Router.Distance.Sound.{IsMetric, IsCost}
use networking_labs.Router.Distance.Network.{
  Note, Network, note, with_dv, IsSoundNetwork, Reach, here, onward, tells, hears, costs,
  new_network, reach-IsSoundNetwork,
}
use networking_labs.Router.Distance.Epochs.{
  Talks, quiet, continued, talks, listens, IsFair, Epochs, start, epoch, Settled,
}
use networking_labs.Router.Distance.Converge.{epochs_exact}

-- 1 and 2 are 5 apart, 2 and 3 are 7 apart.
abbrev line : Fun (Fun ℕ)
line i j =
    if i == j
    then 0
    else if i == 1 && j == 2 || i == 2 && j == 1
    then 5
    else if i == 2 && j == 3 || i == 3 && j == 2
    then 7
    else no_path

abbrev true_dist : Fun (Fun ℕ)
true_dist i j = if i == 1 && j == 3 || i == 3 && j == 1 then 12 else line i j

true_dist-IsMetric : IsMetric true_dist
true_dist-IsMetric = record {
  self = λ a. ground arith;
  triangle = λ a b c. ground arith;
  capped = λ a b. ground arith;
}

abbrev at_start : Network
at_start = record { routers = λ i. record (init_dv i) { c = line i }; notes = [] }

at_start-Settled : Settled line 0 at_start
unfolding init_dv
at_start-Settled = record {
  ids = λ i. refl;
  links = λ i j. refl;
  versions = λ i. refl;
  home = λ i. ground arith;
  no_newer = tt;
}

at_start-IsSoundNetwork : IsSoundNetwork (λ x. true_dist) at_start
unfolding init_dv
at_start-IsSoundNetwork = record {
  routers_sound = λ i. record {
    links = λ j. ground arith;
    links_fit = λ j. ground arith;
    rows = λ k j. ground arith;
    rows_fit = λ k j. ground arith;
    whole = refl;
  };
  notes_sound = tt;
}

-- All tell their rows.
abbrev telling : Network → Network
telling u = record u {
  notes =
      ((u.notes ++ note (u.routers 1) ∷ []) ++ note (u.routers 2) ∷ []) ++ note (u.routers 3) ∷ [];
}

abbrev hearing : ℕ → Note → Network → Network
hearing i m u = with_dv u i (receive_dv 3 m.rid m.row m.version (u.routers i)).0

-- Then each hears its neighbours.
abbrev exchanged : Network → Network
exchanged u = hearing 3 (note (u.routers 2)) (
    hearing 2 (note (u.routers 3))
      (hearing 2 (note (u.routers 1)) (hearing 1 (note (u.routers 2)) (telling u))))

neighbours :
    (i k : ℕ)
    → 1 ≤ i
    → i ≤ 3
    → 1 ≤ k
    → k ≤ 3
    → i ≢ k
    → line i k < no_path
    → ((i ≡ 1) × (k ≡ 2)) ⊎ ((i ≡ 2) × (k ≡ 1)) ⊎ ((i ≡ 2) × (k ≡ 3)) ⊎ ((i ≡ 3) × (k ≡ 2))
neighbours i k i_lo i_hi k_lo k_hi other linked = ground arith

first_epoch : Talks 3 at_start (exchanged at_start)
unfolding init_dv receive_dv update_dv direct_loop jump_loop
first_epoch =
    let told : Talks 3 at_start (telling at_start) =
      continued _ (continued _ (continued _ quiet (talks 1)) (talks 2)) (talks 3) in
    continued _
      (continued _
        (continued _ (continued _ told (listens 1 1 (note (at_start.routers 2)) refl (omega arith)))
          (listens 2 0 (note (at_start.routers 1)) refl (omega arith)))
        (listens 2 2 (note (at_start.routers 3)) refl (omega arith)))
      (listens 3 1 (note (at_start.routers 2)) refl (omega arith))

first_epoch-IsFair : IsFair line first_epoch
unfolding first_epoch init_dv
first_epoch-IsFair i k i_lo i_hi k_lo k_hi other linked =
    elim (neighbours i k i_lo i_hi k_lo k_hi other linked) [
      | inl (a, b) ↦ inl (inl (inl (inr (sym a, sym b, omega arith))))
      | inr (inl (a, b)) ↦ inl (inl (inr (sym a, sym b, omega arith)))
      | inr (inr (inl (a, b))) ↦ inl (inr (sym a, sym b, omega arith))
      | inr (inr (inr (a, b))) ↦ inr (sym a, sym b, omega arith)
    ]

abbrev halfway : Network
halfway = exchanged at_start

second_epoch : Talks 3 halfway (exchanged halfway)
unfolding init_dv receive_dv update_dv direct_loop jump_loop
second_epoch =
    let told : Talks 3 halfway (telling halfway) =
      continued _ (continued _ (continued _ quiet (talks 1)) (talks 2)) (talks 3) in
    continued _
      (continued _
        (continued _ (continued _ told (listens 1 4 (note (halfway.routers 2)) refl (omega arith)))
          (listens 2 3 (note (halfway.routers 1)) refl (omega arith)))
        (listens 2 5 (note (halfway.routers 3)) refl (omega arith)))
      (listens 3 4 (note (halfway.routers 2)) refl (omega arith))

second_epoch-IsFair : IsFair line second_epoch
unfolding second_epoch init_dv receive_dv update_dv direct_loop jump_loop
second_epoch-IsFair i k i_lo i_hi k_lo k_hi other linked =
    elim (neighbours i k i_lo i_hi k_lo k_hi other linked) [
      | inl (a, b) ↦ inl (inl (inl (inr (sym a, sym b, omega arith))))
      | inr (inl (a, b)) ↦ inl (inl (inr (sym a, sym b, omega arith)))
      | inr (inr (inl (a, b))) ↦ inl (inr (sym a, sym b, omega arith))
      | inr (inr (inr (a, b))) ↦ inr (sym a, sym b, omega arith)
    ]

two_epochs : Epochs 3 line at_start 2 (exchanged halfway)
two_epochs =
    epoch halfway (epoch at_start start first_epoch first_epoch-IsFair) second_epoch
      second_epoch-IsFair

-- Router 1 knows the way of 12 to router 3.
epochs_exact_example :
    (own ((exchanged halfway).routers 1) 3 ≡ 12)
    × (((exchanged halfway).routers 1).overflow ≡ false)
epochs_exact_example =
    epochs_exact 3 line true_dist 0 at_start 2 (exchanged halfway) true_dist-IsMetric
      at_start-IsSoundNetwork at_start-Settled two_epochs 1 (2 ∷ 3 ∷ []) (omega arith) (omega arith)
      (omega arith)
      (
        omega arith,
        omega arith,
        omega arith,
        omega arith,
        (omega arith, omega arith, omega arith, omega arith, tt),
      )
      refl

-- The links are at least 4 long in version 0, and 8 in the later ones.
abbrev apart : ℕ → Fun (Fun ℕ)
apart version a b = if a == b then 0 else if version == 0 then 4 else 8

apart-IsMetric : (version : ℕ) → IsMetric (apart version)
apart-IsMetric version = record {
  self = λ a. ground arith;
  triangle = λ a b c. ground arith;
  capped = λ a b. ground arith;
}

-- Router 1 tells its row, router 2 hears it, and router 1 gets a link to router 2,
-- which then becomes longer.
abbrev told : Network
told = record new_network { notes = note (init_dv 1) ∷ [] }

abbrev heard : Network
heard =
    with_dv told 2
      (receive_dv 2 (note (init_dv 1)).rid (note (init_dv 1)).row (note (init_dv 1)).version
        (init_dv 2)).0

abbrev linked : Network
linked = with_dv heard 1 (update_c 2 2 (some 5) 0 (init_dv 1)).1

abbrev longer : Network
longer = with_dv linked 1 (update_c 2 2 (some 9) 0 (linked.routers 1)).1

linked-IsCost : IsCost apart 2 0 (some 5) (init_dv 1)
unfolding init_dv link_cost
linked-IsCost = record {
  fits = omega arith;
  shortens = λ less. ground arith;
  lengthens = λ more. absurd (ground arith);
}

longer-IsCost : IsCost apart 2 0 (some 9) (linked.routers 1)
unfolding init_dv update_c update_dv direct_loop jump_loop link_cost receive_dv
longer-IsCost = record {
  fits = omega arith;
  shortens = λ less. absurd (ground arith);
  lengthens = λ more i. ground arith;
}

longer_reached : Reach 2 apart new_network longer
unfolding init_dv update_c update_dv direct_loop jump_loop receive_dv
longer_reached =
    onward linked
      (onward heard
        (onward told (onward new_network here (tells 1))
          (hears 2 0 (note (init_dv 1)) refl (omega arith) (λ newer. absurd (omega arith))))
        (costs 1 2 0 (some 5) (omega arith) linked-IsCost))
      (costs 1 2 0 (some 9) (omega arith) longer-IsCost)

reach-IsSoundNetwork_example : IsSoundNetwork apart longer
reach-IsSoundNetwork_example = reach-IsSoundNetwork apart-IsMetric longer_reached
