-- ===== src/Router/Distance/Converge.antt =====
-- router.h: while no cost changes, the rows come down to the lengths of the shortest ways.
use networking_labs.Prelude.{ℕ, ◌≤◌, ◌≡◌, ap, false, List, [], ◌∷◌, arith, length}
use networking_labs.Router.Distance.{Fun, own}
use networking_labs.Router.Distance.Sound.{IsMetric}
use networking_labs.Router.Distance.Network.{
  Network, IsSoundNetwork, Step-IsSoundNetwork, tells, hears,
}
use networking_labs.Router.Distance.Near.{IsNear, epoch-IsNear}
use networking_labs.Router.Distance.Epochs.{
  way_end, way_len, IsWay, Talk, talks, listens, Talks, quiet, continued, Epochs, start, epoch,
  Settled,
}

module _ (n : ℕ) (cost : Fun (Fun ℕ)) where
  Epochs-IsNear :
      (version : ℕ) (u : Network) (h : ℕ) (w : Network)
      → Settled cost version u
      → Epochs n cost u h w
      → Settled cost version w × ((i : ℕ) → IsNear n cost h i (own (w.routers i)))
  Epochs-IsNear version u h w settled start = (settled, at_home)
    where
      at_home : (i : ℕ) → IsNear n cost 0 i (own (u.routers i))
      at_home i lo hi [] short way = omega (arith, settled.home i)
      at_home i lo hi (k ∷ ks) short way = absurd (omega arith)
  Epochs-IsNear version u h w settled (epoch {h = h'} v epochs run fair) =
      let (settled', near) = Epochs-IsNear version u h' v settled epochs in
      epoch-IsNear n cost version h' v w run fair settled' near

  Talk-IsSoundNetwork :
      {dist : Fun (Fun ℕ)} (metric : IsMetric dist) (u w : Network)
      → Talk n u w
      → IsSoundNetwork (λ x. dist) u
      → IsSoundNetwork (λ x. dist) w
  Talk-IsSoundNetwork metric u w (talks i) s =
      Step-IsSoundNetwork {n = n} (λ x. metric) u (tells i) s
  Talk-IsSoundNetwork metric u w (listens i at m told other) s =
      Step-IsSoundNetwork {n = n} (λ x. metric) u
        (hears i at m told other (λ newer. (s.routers_sound i).links)) s

  Talks-IsSoundNetwork :
      {dist : Fun (Fun ℕ)} (metric : IsMetric dist) (u w : Network)
      → Talks n u w
      → IsSoundNetwork (λ x. dist) u
      → IsSoundNetwork (λ x. dist) w
  Talks-IsSoundNetwork metric u w quiet s = s
  Talks-IsSoundNetwork metric u w (continued v run talk) s =
      Talk-IsSoundNetwork metric v w talk (Talks-IsSoundNetwork metric u v run s)

  Epochs-IsSoundNetwork :
      {dist : Fun (Fun ℕ)} (metric : IsMetric dist) (u : Network) (h : ℕ) (w : Network)
      → Epochs n cost u h w
      → IsSoundNetwork (λ x. dist) u
      → IsSoundNetwork (λ x. dist) w
  Epochs-IsSoundNetwork metric u h w start s = s
  Epochs-IsSoundNetwork metric u h w (epoch {h = h'} v epochs run fair) s =
      Talks-IsSoundNetwork metric v w run (Epochs-IsSoundNetwork metric u h' v epochs s)

-- While routers only tell and hear rows, late, twice or in any order, and in each of h epochs
-- every router from 1 to n hears from each of its neighbours a row told in that epoch, the row of
-- every such router has exactly the true distance to the end of each way of at most h open links
-- that is a shortest one, and no sum of it has been beyond an int; from a network in which all
-- routers have one version and know the costs of their links and their own distance 0, no note is
-- newer, nothing is below the true distances or above 0x3f3f3f3f and no sum has been beyond an
-- int, for true distances with the triangle inequality, none above 0x3f3f3f3f.
pub epochs_exact :
    (n : ℕ) (cost dist : Fun (Fun ℕ)) (version : ℕ) (u : Network) (h : ℕ) (w : Network)
    → IsMetric dist
    → IsSoundNetwork (λ x. dist) u
    → Settled cost version u
    → Epochs n cost u h w
    → (i : ℕ) (ks : List ℕ) → 1 ≤ i
    → i ≤ n
    → length ks ≤ h
    → IsWay n cost i ks
    → way_len cost i ks ≡ dist i (way_end i ks)
    → (own (w.routers i) (way_end i ks) ≡ dist i (way_end i ks)) × ((w.routers i).overflow ≡ false)
epochs_exact n cost dist version u h w metric sound settled epochs i ks lo hi short way shortest =
    let (settled', near) = Epochs-IsNear n cost version u h w settled epochs in
    let s = (Epochs-IsSoundNetwork n cost metric u h w epochs sound).routers_sound i in
    let id = settled'.ids i in
    (
      omega (
        arith,
        near i lo hi ks short way,
        s.rows (w.routers i).router_id (way_end i ks),
        ap (λ (k : ℕ). dist k (way_end i ks)) id,
      ),
      s.whole,
    )
