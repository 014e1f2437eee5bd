-- ===== src/Router/Distance/Network.antt =====
-- router.h: all routers of a network, which tell each other their rows. What has been told may
-- arrive late, twice, in any order or never.
use networking_labs.Prelude.{
  ℕ, ◌≤◌, ◌≡◌, ◌≢◌, ◌==◌, List, [], ◌∷◌, ◌++◌, Option, some, if◌then◌else◌, get_elem?, All,
  All-append, Bool, true, false, All-get,
}
use networking_labs.Router.Distance.{Dv, Fun, put, no_path, init_dv, receive_dv, update_c}
use networking_labs.Router.Distance.Sound.{
  IsMetric, IsSound, IsPriced, IsCost, init_dv-IsSound, receive_dv-IsSound, update_c-IsSound,
}

-- What a message of a router says: its number, its version and its row.
pub record Note : Type 0 where
  pub rid : ℕ
  pub version : ℕ
  pub row : Fun ℕ

pub record Network : Type 0 where
  pub routers : Fun Dv
  pub notes : List Note

abbrev pub note : Dv → Note
note v = record { rid = v.router_id; version = v.version; row = v.d v.router_id }

-- Router i has another vector.
abbrev pub with_dv : Network → ℕ → Dv → Network
with_dv w i v = record w { routers = put w.routers i v }

-- Among `n` routers one tells its row, one hears of another's, or the cost of a link of one changes.
-- `dist` gives for each version distances that no link of a router is below while it has that version.
pub data Step (n : ℕ) (dist : ℕ → Fun (Fun ℕ)) (w : Network) : Network → Type 0 where
  tells : (i : ℕ) → Step n dist w (record w { notes = w.notes ++ note (w.routers i) ∷ [] })
  hears :
      (i k : ℕ) (heard : Note)
      → get_elem? w.notes k ≡ some heard
      → (w.routers i).router_id ≢ heard.rid
      → IsPriced dist heard.version (w.routers i)
      → Step n dist w (with_dv w i (receive_dv n heard.rid heard.row heard.version (w.routers i)).0)
  costs :
      (i tgt last : ℕ) (value : Option ℕ)
      → (w.routers i).router_id ≢ tgt
      → IsCost dist tgt last value (w.routers i)
      → Step n dist w (with_dv w i (update_c n tgt value last (w.routers i)).1)

pub data Reach (n : ℕ) (dist : ℕ → Fun (Fun ℕ)) (u : Network) : Network → Type 0 where
  here : Reach n dist u u
  onward : (v : Network) {w : Network} → Reach n dist u v → Step n dist v w → Reach n dist u w

-- All routers have started, and nothing has been told.
abbrev pub new_network : Network
new_network = record { routers = init_dv; notes = [] }

-- No router and no note has a distance below those of its version, and none is above `no_path`.
abbrev pub IsTrue : (ℕ → Fun (Fun ℕ)) → Note → Type 0
IsTrue dist m = (i : ℕ) → (dist m.version m.rid i ≤ m.row i) × (m.row i ≤ no_path)

pub record IsSoundNetwork (dist : ℕ → Fun (Fun ℕ)) (w : Network) : Type 0 where
  pub routers_sound : (i : ℕ) → IsSound dist (w.routers i)
  pub notes_sound : All (IsTrue dist) w.notes

with_dv-IsSoundNetwork :
    (dist : ℕ → Fun (Fun ℕ)) (w : Network) (i : ℕ) (v : Dv)
    → IsSoundNetwork dist w
    → IsSound dist v
    → IsSoundNetwork dist (with_dv w i v)
with_dv-IsSoundNetwork dist w i v s h = record {
  routers_sound = λ j. at j (i == j);
  notes_sound = s.notes_sound;
}
  where
    at : (j : ℕ) (b : Bool) → IsSound dist (if b then v else w.routers j)
    at j true = h
    at j false = s.routers_sound j

new_network-IsSoundNetwork :
    (dist : ℕ → Fun (Fun ℕ)) → ((x : ℕ) → IsMetric (dist x)) → IsSoundNetwork dist new_network
new_network-IsSoundNetwork dist metric = record {
  routers_sound = λ i. init_dv-IsSound metric i;
  notes_sound = tt;
}

note-IsTrue : (dist : ℕ → Fun (Fun ℕ)) (v : Dv) → IsSound dist v → IsTrue dist (note v)
note-IsTrue dist v s j = (s.rows v.router_id j, s.rows_fit v.router_id j)

module _ {n : ℕ} {dist : ℕ → Fun (Fun ℕ)} (metric : (x : ℕ) → IsMetric (dist x)) where
  pub Step-IsSoundNetwork :
      (u : Network) {w : Network} → Step n dist u w → IsSoundNetwork dist u → IsSoundNetwork dist w
  Step-IsSoundNetwork u (tells i) s = record {
    routers_sound = s.routers_sound;
    notes_sound =
        All-append _ u.notes (note (u.routers i) ∷ []) s.notes_sound
          (note-IsTrue dist (u.routers i) (s.routers_sound i), tt);
  }
  Step-IsSoundNetwork u (hears i k heard at other priced) s = with_dv-IsSoundNetwork dist u i _ s (
      receive_dv-IsSound metric n heard.rid heard.version heard.row (u.routers i) other
        (All-get (IsTrue dist) u.notes k s.notes_sound at) priced (s.routers_sound i))
  Step-IsSoundNetwork u (costs i tgt last value other cost) s =
      with_dv-IsSoundNetwork dist u i _ s
        (update_c-IsSound metric n tgt last value (u.routers i) other cost (s.routers_sound i))

  -- In every state that a network of new routers comes to by telling rows, hearing them late,
  -- twice, in any order or never, and changing the costs of links, no router holds a link or a
  -- distance below that of its version, nor does any row that has been told, none is above
  -- 0x3f3f3f3f, and no sum has been beyond an int; for distances of each version with the triangle
  -- inequality and none above 0x3f3f3f3f, and costs of at most 0x3f3f3f3f such that no link of a
  -- router is below the distances of the version that it has or goes over to.
  pub reach-IsSoundNetwork : {w : Network} → Reach n dist new_network w → IsSoundNetwork dist w
  reach-IsSoundNetwork here = new_network-IsSoundNetwork dist metric
  reach-IsSoundNetwork (onward v reach step) =
      Step-IsSoundNetwork v step (reach-IsSoundNetwork reach)
