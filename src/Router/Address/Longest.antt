-- ===== src/Router/Address/Longest.antt =====
-- router.h: `exIPMatchRouter` on a table that `std::sort` has put in order, the largest mask first.
use networking_labs.Prelude.{
  ℕ, suc, ◌≤◌, ◌≡◌, refl, sym, ◌∙◌, List, [], ◌∷◌, none, some, true, false, get_elem?, All, All-map,
  arith, Bool-cases, inl, inr,
}
use networking_labs.Router.Address.{IpAddr, Matcher, matches, first_match}

-- The order of `EXIPMATCHER`.
unfoldable pub IsSorted : List Matcher → Type 0
IsSorted [] = Unit {0}
IsSorted (m ∷ table) = All (λ other. other.musk ≤ m.musk) table × IsSorted table

-- The matcher stands in the table, holds the address and has the longest mask of those that do.
pub record IsLongest (table : List Matcher) (ip : IpAddr) (m : Matcher) : Type 0 where
  pub listed : (i : ℕ) × (get_elem? table i ≡ some m)
  pub holds : matches m ip ≡ true
  pub longest : All (λ other. matches other ip ≡ true → other.musk ≤ m.musk) table

first_match_here :
    (x : Matcher) (table : List Matcher) (ip : IpAddr)
    → matches x ip ≡ true
    → first_match (x ∷ table) ip ≡ some x.id
unfolding first_match
first_match_here x table ip here = rw here refl

first_match_away :
    (x : Matcher) (table : List Matcher) (ip : IpAddr)
    → matches x ip ≡ false
    → first_match (x ∷ table) ip ≡ first_match table ip
unfolding first_match
first_match_away x table ip away = rw away refl

first-IsLongest :
    (x : Matcher) (table : List Matcher) (ip : IpAddr)
    → All (λ other. other.musk ≤ x.musk) table
    → matches x ip ≡ true
    → IsLongest (x ∷ table) ip x
first-IsLongest x table ip order here = record {
  listed = (0, refl);
  holds = here;
  longest = (
    (λ h. omega arith),
    All-map (λ other. other.musk ≤ x.musk) (λ other. matches other ip ≡ true → other.musk ≤ x.musk)
        table (λ other le h. le) order,
  );
}

later-IsLongest :
    (x m : Matcher) (table : List Matcher) (ip : IpAddr)
    → matches x ip ≡ false
    → IsLongest table ip m
    → IsLongest (x ∷ table) ip m
later-IsLongest x m table ip away v = record {
  listed = (suc v.listed.0, v.listed.1);
  holds = v.holds;
  longest = ((λ h. ground (arith, h, away)), v.longest);
}

-- On a table in the order of its masks, the largest first, exIPMatchRouter gives no router only
-- where no network holds the address, and otherwise the router of a network that holds it and
-- whose mask is the largest of those that do.
pub first_match-IsLongest :
    (table : List Matcher) (ip : IpAddr)
    → IsSorted table
    → (first_match table ip ≡ none → All (λ m. matches m ip ≡ false) table)
      × ((id : ℕ)
          → first_match table ip ≡ some id
          → (m : Matcher) × (m.id ≡ id) × IsLongest table ip m)
unfolding first_match IsSorted
first_match-IsLongest [] ip sorted = ((λ h. tt), λ id h. ground (arith, h))
first_match-IsLongest (x ∷ table) ip sorted =
    let (absent, found) = first_match-IsLongest table ip sorted.1 in
    elim (Bool-cases (matches x ip)) [
      | inl here ↦
          let e = first_match_here x table ip here in
          (
            (λ h. ground (arith, sym e ∙ h)),
            λ id h. (x, ground (arith, sym e ∙ h), first-IsLongest x table ip sorted.0 here),
          )
      | inr away ↦
          let e = first_match_away x table ip away in
          (
            (λ h. (away, absent (sym e ∙ h))),
            λ id h.
                let (m, same, v) = found id (sym e ∙ h) in
                (m, same, later-IsLongest x m table ip away v),
          )
    ]
