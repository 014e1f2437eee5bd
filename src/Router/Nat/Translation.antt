-- ===== src/Router/Nat/Translation.antt =====
-- router.cpp: the translation of a packet that goes out, and of the answer to it.
use native.Mathlib.Decide.{ℕ_discrete}
use mathlib.Core.Option.{some-injective}
use networking_labs.Prelude.{
  ℕ, zero, suc, ◌+◌, ◌-◌, ◌<◌, ◌≡◌, ◌≢◌, refl, List, [], ◌∷◌, none, some, arith, replicate, ◌==◌,
  All, Option-cases, inl, inr, sym, ap, subst, ◌∙◌, ◌⊎◌, false,
}
use networking_labs.Prelude.Map.{lookup, lookup-insert}
use networking_labs.Router.Address.{IpAddr}
use networking_labs.Router.Nat.{
  NatTable, push_range, init_addresses, start_nat, alloc, translate_in, bind_nat, translate_out,
}
use networking_labs.Router.Nat.Invariant.{IsNat, IsDistinct, apart, bind-IsNat}

-- The table `t` with the packet's source become `e`, or 0.
pub record Translated (t : NatTable) (host : IpAddr) (x : NatTable × IpAddr) : Type 0 where
  pub in_order : IsNat x.0
  pub answered : x.1 ≢ 0 → translate_in x.0 x.1 ≡ some host
  pub undisturbed : (e h : IpAddr) → translate_in t e ≡ some h → translate_in x.0 e ≡ some h

bound :
    (t : NatTable) (v : IsNat t) (host e : IpAddr)
    → IsNat (bind_nat host e t)
    → ((h : IpAddr) → lookup e t.extern_ip2_host ≡ some h → host ≡ h)
    → Translated t host (bind_nat host e t, e)
unfolding translate_in
bound t v host e in_order owner = record {
  in_order = in_order;
  answered = λ nz. ground (arith, lookup-insert e e host t.extern_ip2_host);
  undisturbed = λ x h q. elim (ℕ_discrete e x) [
    | yes same ↦
        let here : host ≡ h = owner h (ap (λ k. lookup k t.extern_ip2_host) same ∙ q) in
        ground (arith, here, lookup-insert x e host t.extern_ip2_host)
    | no other ↦ ground (arith, lookup-insert x e host t.extern_ip2_host)
  ];
}

dropped :
    (t : NatTable) (v : IsNat t) (host : IpAddr) (address : List IpAddr)
    → IsDistinct address
    → All (λ x. (x ≡ 0) ⊎ (lookup x t.extern_ip2_host ≡ none)) address
    → Translated t host (record t { address = address }, 0)
unfolding translate_in
dropped t v host address d f = record {
  in_order = record { distinct = d; free = f; there = v.there; back = v.back; nonzero = v.nonzero };
  answered = λ nz. absurd (nz refl);
  undisturbed = λ e h q. q;
}

with_new :
    (t : NatTable) (v : IsNat t) (host : IpAddr) (address : List IpAddr)
    → t.address ≡ address
    → lookup host t.host2_extern_ip ≡ none
    → IsDistinct address
    → All (λ x. (x ≡ 0) ⊎ (lookup x t.extern_ip2_host ≡ none)) address
    → Translated t host (translate_out t host)
unfolding translate_out alloc translate_in
with_new t v host [] same missing d f =
    let out : translate_out t host ≡ (record t { address = [] }, 0) =
      rw (missing, translate_out, same) refl in
    subst (Translated t host) (sym out) (dropped t v host [] d f)
with_new t v host (ip ∷ address) same missing d f = elim (ℕ_discrete ip 0) [
  | yes none_left ↦
      let out : translate_out t host ≡ (record t { address = address }, 0) =
        rw (missing, translate_out, same, none_left) refl in
      subst (Translated t host) (sym out) (dropped t v host address d.1 f.1)
  | no nz ↦
      let taken : (ip == 0) ≡ false = ground arith in
      let unused : lookup ip t.extern_ip2_host ≡ none = elim (f.0) [
        | inl z ↦ absurd (nz z)
        | inr q ↦ q
      ] in
      let apart' : All (λ x. ip ≢ x) address = elim (d.0) [ inl z ↦ absurd (nz z) | inr q ↦ q ] in
      let t' : NatTable = record t { address = address } in
      let v' = (dropped t v host address d.1 f.1).in_order in
      let x =
        bound t' v' host ip (bind-IsNat t' v' host ip nz apart' (inr (missing, unused)))
          (λ h q. absurd (ground (arith, unused))) in
      let out : translate_out t host ≡ (bind_nat host ip t', ip) =
        rw (missing, translate_out, same, taken) refl in
      subst (Translated t host) (sym out)
        (record { in_order = x.in_order; answered = x.answered; undisturbed = x.undisturbed })
]

-- From a table in order, the translation of a packet that goes out leaves a table in order, an
-- answer to the address that it gives (unless it is 0, for which the packet is dropped) comes back
-- to its host, and every address that stood for a host still stands for it.
pub translate_out-Translated :
    (t : NatTable) (host : IpAddr) → IsNat t → Translated t host (translate_out t host)
unfolding translate_out
translate_out-Translated t host v = elim (Option-cases (lookup host t.host2_extern_ip)) [
  | inl missing ↦ with_new t v host t.address refl missing v.distinct v.free
  | inr (e, found) ↦
      let used = v.there host e found in
      let nz : e ≢ 0 = λ z. ground (arith, v.nonzero, ap (λ k. lookup k t.extern_ip2_host) z) in
      let known : (e == 0) ≡ false = ground arith in
      rw (found, translate_out, known)
        (bound t v host e
          (bind-IsNat t v host e nz (apart t.extern_ip2_host e host t.address used nz v.free)
            (inl found))
          λ h q. some-injective _ _ (sym used ∙ q))
]

push-IsDistinct :
    (n ip : ℕ) (address : List IpAddr)
    → 0 < ip
    → IsDistinct address
    → All (λ x. x < ip) address
    → IsDistinct (push_range n ip address)
unfolding push_range
push-IsDistinct zero ip address pos d below = d
push-IsDistinct (suc n) ip address pos d below =
    push-IsDistinct n (ip + 1) (ip ∷ address) (omega arith) (inr (apart_below address below), d)
      (omega arith, still_below address below)
  where
    apart_below : (l : List IpAddr) → All (λ x. x < ip) l → All (λ x. ip ≢ x) l
    apart_below [] h = tt
    apart_below (x ∷ l) h = (omega (arith, h.0), apart_below l h.1)

    still_below : (l : List IpAddr) → All (λ x. x < ip) l → All (λ x. x < ip + 1) l
    still_below [] h = tt
    still_below (x ∷ l) h = (omega (arith, h.0), still_below l h.1)

zeros-IsDistinct : (n : ℕ) → IsDistinct (replicate n 0)
zeros-IsDistinct zero = tt
zeros-IsDistinct (suc n) = (inl refl, zeros-IsDistinct n)

zeros-below : (n ip : ℕ) → 0 < ip → All (λ x. x < ip) (replicate n 0)
zeros-below zero ip pos = tt
zeros-below (suc n) ip pos = (pos, zeros-below n ip pos)

all_free : (l : List IpAddr) → All (λ x. (x ≡ 0) ⊎ (lookup {V = IpAddr} x [] ≡ none)) l
unfolding lookup
all_free [] = tt
all_free (x ∷ l) = (inr refl, all_free l)

-- The table of a new router is in order, with the zeros that resize leaves below the addresses;
-- for a first address above 0.
pub start_nat-IsNat :
    (ip_min ip_max : IpAddr) → 0 < ip_min → IsNat (start_nat (init_addresses ip_min ip_max))
unfolding start_nat init_addresses lookup
start_nat-IsNat ip_min ip_max pos = record {
  distinct =
      push-IsDistinct (ip_max + 1 - ip_min) ip_min _ pos (zeros-IsDistinct _)
        (zeros-below _ ip_min pos);
  free = all_free _;
  there = λ h e q. cc;
  back = λ h e q. cc;
  nonzero = refl;
}
