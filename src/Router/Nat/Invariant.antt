-- ===== src/Router/Nat/Invariant.antt =====
-- router.h: the two maps of the translation are inverse to each other, and no address that is free
-- is in use.
use mathlib.Core.Option.{some-injective}
use native.Mathlib.Decide.{ℕ_discrete}
use networking_labs.Prelude.{
  ◌≡◌, ◌≢◌, List, [], ◌∷◌, none, some, arith, All, All-map, Option-cases, inl, inr, sym, ap, ◌∙◌,
  ◌⊎◌,
}
use networking_labs.Prelude.Map.{Map, lookup, insert, erase, lookup-insert, lookup-erase}
use networking_labs.Router.Address.{IpAddr}
use networking_labs.Router.Nat.{NatTable, release_nat_item, bind_nat}

-- Zeros apart, no address stands twice.
abbrev pub IsDistinct : List IpAddr → Type 0
IsDistinct [] = Unit
IsDistinct (ip ∷ address) = ((ip ≡ 0) ⊎ All (λ x. ip ≢ x) address) × IsDistinct address

pub record IsNat (t : NatTable) : Type 0 where
  pub distinct : IsDistinct t.address
  pub free : All (λ x. (x ≡ 0) ⊎ (lookup x t.extern_ip2_host ≡ none)) t.address
  pub there :
      (h e : IpAddr) → lookup h t.host2_extern_ip ≡ some e → lookup e t.extern_ip2_host ≡ some h
  pub back :
      (h e : IpAddr) → lookup e t.extern_ip2_host ≡ some h → lookup h t.host2_extern_ip ≡ some e
  pub nonzero : lookup 0 t.extern_ip2_host ≡ none

-- An address in use is not among the free ones.
pub apart :
    (m : Map IpAddr) (e h : IpAddr) (address : List IpAddr)
    → lookup e m ≡ some h
    → e ≢ 0
    → All (λ x. (x ≡ 0) ⊎ (lookup x m ≡ none)) address
    → All (λ x. e ≢ x) address
apart m e h [] used nz free = tt
apart m e h (x ∷ address) used nz free = (
  λ same. elim (free.0) [
    | inl z ↦ nz (same ∙ z)
    | inr none_there ↦ absurd (ground (arith, ap (λ k. lookup k m) same))
  ],
  apart m e h address used nz free.1,
)

module _ (t : NatTable) (v : IsNat t) where
  -- Giving back the address of any host keeps the table in order.
  pub release-IsNat : (host : IpAddr) → IsNat (release_nat_item host t)
  unfolding release_nat_item
  release-IsNat host = elim (Option-cases (lookup host t.host2_extern_ip)) [
    | inl missing ↦ rw (missing, release_nat_item) v
    | inr (e, found) ↦
        let used = v.there host e found in
        let nz : e ≢ 0 = λ z. ground (arith, v.nonzero, ap (λ k. lookup k t.extern_ip2_host) z) in
        rw (found, release_nat_item)
          (record {
            distinct = (inr (apart t.extern_ip2_host e host t.address used nz v.free), v.distinct);
            free = (
              inr (ground (arith, lookup-erase e e t.extern_ip2_host)),
              All-map (λ x. (x ≡ 0) ⊎ (lookup x t.extern_ip2_host ≡ none))
                  (λ x. (x ≡ 0) ⊎ (lookup x (erase e t.extern_ip2_host) ≡ none)) t.address
                  (λ x h. elim h [
                    | inl z ↦ inl z
                    | inr none_there ↦ inr (ground (arith, lookup-erase x e t.extern_ip2_host))
                  ])
                  v.free,
            );
            there = λ h x q. elim (ℕ_discrete host h) [
              | yes same ↦ absurd (ground (arith, lookup-erase h host t.host2_extern_ip))
              | no other ↦
                  let old : lookup h t.host2_extern_ip ≡ some x =
                    ground (arith, lookup-erase h host t.host2_extern_ip) in
                  let ne : e ≢ x = λ same. other (
                    some-injective _ _
                      (sym used ∙ ap (λ k. lookup k t.extern_ip2_host) same ∙ v.there h x old)) in
                  ground (arith, lookup-erase x e t.extern_ip2_host, v.there h x old)
            ];
            back = λ h x q. elim (ℕ_discrete e x) [
              | yes same ↦ absurd (ground (arith, lookup-erase x e t.extern_ip2_host))
              | no other ↦
                  let old : lookup x t.extern_ip2_host ≡ some h =
                    ground (arith, lookup-erase x e t.extern_ip2_host) in
                  let ne : host ≢ h = λ same. other (
                    some-injective _ _
                      (sym found ∙ ap (λ k. lookup k t.host2_extern_ip) same ∙ v.back h x old)) in
                  ground (arith, lookup-erase h host t.host2_extern_ip, v.back h x old)
            ];
            nonzero = ground (arith, lookup-erase 0 e t.extern_ip2_host, v.nonzero);
          })
  ]

  -- A host gets an address that no other host has.
  pub bind-IsNat :
      (host e : IpAddr)
      → e ≢ 0
      → All (λ x. e ≢ x) t.address
      → (lookup host t.host2_extern_ip ≡ some e)
        ⊎ (lookup host t.host2_extern_ip ≡ none) × (lookup e t.extern_ip2_host ≡ none)
      → IsNat (bind_nat host e t)
  bind-IsNat host e nz fresh old = record {
    distinct = v.distinct;
    free = still_free t.address fresh v.free;
    there = λ h x q. elim (ℕ_discrete host h) [
      | yes same ↦
          let here : e ≡ x = ground (arith, lookup-insert h host e t.host2_extern_ip) in
          ground (arith, here, lookup-insert x e host t.extern_ip2_host)
      | no other ↦
          let kept : lookup h t.host2_extern_ip ≡ some x =
            ground (arith, lookup-insert h host e t.host2_extern_ip) in
          let ne : e ≢ x = λ same.
            other (owner h (ap (λ k. lookup k t.extern_ip2_host) same ∙ v.there h x kept)) in
          ground (arith, lookup-insert x e host t.extern_ip2_host, v.there h x kept)
    ];
    back = λ h x q. elim (ℕ_discrete e x) [
      | yes same ↦
          let here : host ≡ h = ground (arith, lookup-insert x e host t.extern_ip2_host) in
          ground (arith, here, lookup-insert h host e t.host2_extern_ip)
      | no other ↦
          let kept : lookup x t.extern_ip2_host ≡ some h =
            ground (arith, lookup-insert x e host t.extern_ip2_host) in
          let ne : host ≢ h = λ same.
            other (address_of x (ap (λ k. lookup k t.host2_extern_ip) same ∙ v.back h x kept)) in
          ground (arith, lookup-insert h host e t.host2_extern_ip, v.back h x kept)
    ];
    nonzero = ground (arith, lookup-insert 0 e host t.extern_ip2_host, v.nonzero);
  }
    where
      owner : (h : IpAddr) → lookup e t.extern_ip2_host ≡ some h → host ≡ h
      owner h q = elim old [
        | inl has ↦ some-injective _ _ (sym (v.there host e has) ∙ q)
        | inr new ↦ absurd (ground (arith, new.1))
      ]

      address_of : (x : IpAddr) → lookup host t.host2_extern_ip ≡ some x → e ≡ x
      address_of x q = elim old [
        | inl has ↦ some-injective _ _ (sym has ∙ q)
        | inr new ↦ absurd (ground (arith, new.0))
      ]

      still_free :
          (address : List IpAddr)
          → All (λ x. e ≢ x) address
          → All (λ x. (x ≡ 0) ⊎ (lookup x t.extern_ip2_host ≡ none)) address
          → All (λ x. (x ≡ 0) ⊎ (lookup x (insert e host t.extern_ip2_host) ≡ none)) address
      still_free [] f g = tt
      still_free (x ∷ address) f g = (
        elim (g.0) [
          | inl z ↦ inl z
          | inr none_there ↦ inr (ground (arith, lookup-insert x e host t.extern_ip2_host, f.0))
        ],
        still_free address f.1 g.1,
      )
