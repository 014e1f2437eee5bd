-- ===== src/Router/Distance/Epochs.antt =====
-- router.h: routers that tell each other their rows while no cost of a link changes, and the ways
-- through such a network.
use networking_labs.Prelude.{
  ℕ, suc, ◌+◌, ◌≤◌, ◌<◌, ◌≡◌, ◌≢◌, ◌⊎◌, List, [], ◌∷◌, ◌++◌, some, get_elem?, length, All,
}
use networking_labs.Router.Distance.{Fun, own, no_path, receive_dv}
use networking_labs.Router.Distance.Network.{Note, Network, note, with_dv}

-- The way from router i by the routers of a list: where it ends and how long it is.
abbrev pub way_end : ℕ → List ℕ → ℕ
way_end i [] = i
way_end i (k ∷ ks) = way_end k ks

abbrev pub way_len : Fun (Fun ℕ) → ℕ → List ℕ → ℕ
way_len cost i [] = 0
way_len cost i (k ∷ ks) = cost i k + way_len cost k ks

-- It goes by links that are open, between routers from 1 to n.
abbrev pub IsWay : ℕ → Fun (Fun ℕ) → ℕ → List ℕ → Type 0
IsWay n cost i [] = Unit
IsWay n cost i (k ∷ ks) = (1 ≤ k) × (k ≤ n) × (i ≢ k) × (cost i k < no_path) × IsWay n cost k ks

-- One router tells its row, or hears one that has been told.
pub data Talk (n : ℕ) (u : Network) : Network → Type 0 where
  talks : (i : ℕ) → Talk n u (record u { notes = u.notes ++ note (u.routers i) ∷ [] })
  listens :
      (i k : ℕ) (heard : Note)
      → get_elem? u.notes k ≡ some heard
      → (u.routers i).router_id ≢ heard.rid
      → Talk n u (with_dv u i (receive_dv n heard.rid heard.row heard.version (u.routers i)).0)

pub data Talks (n : ℕ) (u : Network) : Network → Type 0 where
  quiet : Talks n u u
  continued : (v : Network) {w : Network} → Talks n u v → Talk n v w → Talks n u w

-- In the run router i hears a note of router k that is not among the first `old` ones.
abbrev pub Hears : {n : ℕ} {u : Network} (old i k : ℕ) {w : Network} → Talks n u w → Type 0
Hears old i k quiet = ⊥
Hears old i k (continued v run (talks j)) = Hears old i k run
Hears old i k (continued v run (listens j at heard told other)) =
    Hears old i k run ⊎ (j ≡ i) × (heard.rid ≡ k) × (old ≤ at)

-- Every router hears from each of its neighbours something that has been told since the start.
abbrev pub IsFair : {n : ℕ} {u w : Network} (cost : Fun (Fun ℕ)) → Talks n u w → Type 0
IsFair {n} {u} cost run =
    (i k : ℕ)
    → 1 ≤ i
    → i ≤ n
    → 1 ≤ k
    → k ≤ n
    → i ≢ k
    → cost i k < no_path
    → Hears (length u.notes) i k run

-- Some runs of that kind, one after the other.
pub data Epochs (n : ℕ) (cost : Fun (Fun ℕ)) (u : Network) : ℕ → Network → Type 0 where
  start : Epochs n cost u 0 u
  epoch :
      {h : ℕ} (v : Network) {w : Network}
      → Epochs n cost u h v
      → (run : Talks n v w) → IsFair cost run
      → Epochs n cost u (suc h) w

-- Each router i knows its number and the costs of its links, all have one version, and no note is
-- newer.
pub record Settled (cost : Fun (Fun ℕ)) (version : ℕ) (w : Network) : Type 0 where
  pub ids : (i : ℕ) → (w.routers i).router_id ≡ i
  pub links : (i j : ℕ) → (w.routers i).c j ≡ cost i j
  pub versions : (i : ℕ) → (w.routers i).version ≡ version
  pub home : (i : ℕ) → own (w.routers i) i ≡ 0
  pub no_newer : All (λ (m : Note). m.version ≤ version) w.notes
