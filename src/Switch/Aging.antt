-- ===== src/Switch/Aging.antt =====
-- switch.cc: `Aging` makes each entry one step older and removes those whose life is over.
use networking_labs.Prelude.{
  ℕ, ◌≡◌, refl, Bool, false, ◌||◌, Option, none, some, List, [], ◌∷◌, arith, ◌==◌, if◌then◌else◌,
}
use networking_labs.Prelude.Int.{pos, ◌-ℤ◌, ◌==ℤ◌}
use networking_labs.Prelude.Map.{Map, IsMap, lookup, erase, lookup-erase, erase-IsMap}
use networking_labs.Switch.{Entry, EthernetSwitch, age_all, erase_all, aging}

-- What one call of `Aging` leaves of an entry.
abbrev pub aged : Option Entry → Option Entry
aged none = none
aged (some e) =
    if (e.life_time -ℤ pos 1) ==ℤ pos 0
    then none
    else some (record e { life_time = e.life_time -ℤ pos 1 })

mem : ℕ → List ℕ → Bool
mem a [] = false
mem a (b ∷ bs) = b == a || mem a bs

lookup-erase_all :
    (a : ℕ) (del : List ℕ) (t : Map Entry)
    → lookup a (erase_all del t) ≡ (if mem a del then none else lookup a t)
unfolding mem erase_all
lookup-erase_all a [] t = refl
lookup-erase_all a (b ∷ del) t =
    ground (arith, lookup-erase_all a del (erase b t), lookup-erase a b t)

not-mem-age_all : (a : ℕ) (t : Map Entry) → lookup a t ≡ none → mem a (age_all t).1 ≡ false
unfolding mem age_all lookup
not-mem-age_all a [] h = refl
not-mem-age_all a ((b, e) ∷ t) h = ground (arith, not-mem-age_all a t)

lookup-age_all-none : (a : ℕ) (t : Map Entry) → lookup a t ≡ none → lookup a (age_all t).0 ≡ none
unfolding age_all lookup
lookup-age_all-none a [] h = refl
lookup-age_all-none a ((b, e) ∷ t) h = ground (arith, lookup-age_all-none a t)

lookup-age_all :
    (a : ℕ) (t : Map Entry)
    → IsMap t
    → (if mem a (age_all t).1 then none else lookup a (age_all t).0) ≡ aged (lookup a t)
unfolding mem age_all lookup
lookup-age_all a [] h = refl
lookup-age_all a ((b, e) ∷ t) h = ground (arith, lookup-age_all a t h.1, not-mem-age_all a t)

-- Aging takes one from the life of each entry and removes exactly those that come to 0, where each
-- address is there once.
pub lookup-aging :
    (a : ℕ) (sw : EthernetSwitch)
    → IsMap sw.table
    → lookup a (aging sw).table ≡ aged (lookup a sw.table)
unfolding aging
lookup-aging a sw h =
    rw (lookup-erase_all a (age_all sw.table).1 (age_all sw.table).0) (lookup-age_all a sw.table h)

age_all-IsMap : (t : Map Entry) → IsMap t → IsMap (age_all t).0
unfolding age_all
age_all-IsMap [] h = tt
age_all-IsMap ((b, e) ∷ t) h = ground (arith, age_all-IsMap t h.1, lookup-age_all-none b t h.0)

erase_all-IsMap : (del : List ℕ) (t : Map Entry) → IsMap t → IsMap (erase_all del t)
unfolding erase_all
erase_all-IsMap [] t h = h
erase_all-IsMap (b ∷ del) t h = erase_all-IsMap del (erase b t) (erase-IsMap b t h)

pub aging-IsMap : (sw : EthernetSwitch) → IsMap sw.table → IsMap (aging sw).table
unfolding aging
aging-IsMap sw h =
    erase_all-IsMap (age_all sw.table).1 (age_all sw.table).0 (age_all-IsMap sw.table h)
