-- ===== src/Router/Distance.antt =====
-- router.h: the distance vector. Arrays are functions: there are fewer than `MAXN` routers, so no
-- index is out of range.
pub mod Relax
pub mod Sound
pub mod Hearing
pub mod Network
pub mod Epochs
pub mod Near
pub mod Converge
mod Tests
use networking_labs.Prelude.{
  ℕ, zero, suc, ◌+◌, ◌≡◌, Option, none, some, Bool, true, false, ◌||◌, ◌^◌, leb, ltb, ◌==◌,
  if◌then◌else◌,
}
use networking_labs.Prelude.Int.{ℤ, pos, minus_one}

abbrev pub Fun {ℓ} : Type ℓ → Type ℓ
Fun A = ℕ → A

abbrev pub put {ℓ} : {A : Type ℓ} → Fun A → ℕ → A → Fun A
put f i v j = if i == j then v else f j

-- What `memset(…, 0x3f, …)` leaves in an `int`.
abbrev pub no_path : ℕ
no_path = 0x3f3f3f3f

-- `overflow` is set once a sum has been beyond an `int`, from where on the source has no meaning.
pub record Dv : Type 0 where
  pub c : Fun ℕ
  pub d : Fun (Fun ℕ)
  pub next_router : Fun ℕ
  pub router_id : ℕ
  pub version : ℕ
  pub overflow : Bool

abbrev pub own : Dv → Fun ℕ
own v = v.d v.router_id

abbrev pub reset_rows : ℕ → Fun (Fun ℕ)
reset_rows me = put (λ k i. no_path) me (put (λ i. no_path) me 0)

-- `Init`
unfoldable pub init_dv : ℕ → Dv
init_dv me = record {
  c = put (λ i. no_path) me 0;
  d = reset_rows me;
  next_router = λ i. 0;
  router_id = me;
  version = 0;
  overflow = false;
}

-- `Reset`
abbrev pub reset : Dv → Dv
reset v = record v { d = reset_rows v.router_id; next_router = λ i. 0 }

-- One test of either loop of `updateDV`: a shorter way to `i`, `len` long, by `hop`.
abbrev pub improve : ℕ → ℕ → ℕ → Dv × Bool → Dv × Bool
improve i hop len (v, changed) =
    if ltb len (own v i)
    then (
      record v {
        next_router = put v.next_router i hop;
        d = put v.d v.router_id (put (own v) i len);
      },
      true,
    )
    else (v, changed)

-- `for (int i=1; i<=totRouterNum; i++)`, n rounds from i on: the direct links.
pub direct_loop : ℕ → ℕ → Dv × Bool → Dv × Bool
direct_loop zero i x = x
direct_loop (suc n) i x = direct_loop n (i + 1) (improve i i (x.0.c i) x)

-- The sum of two `int`s is `len`.
abbrev pub sum_int : ℕ → Dv × Bool → Dv × Bool
sum_int len x = (record x.0 { overflow = x.0.overflow || leb (2 ^ 31) len }, x.1)

-- The ways by `tgt`.
pub jump_loop : ℕ → ℕ → ℕ → Dv × Bool → Dv × Bool
jump_loop tgt zero i x = x
jump_loop tgt (suc n) i x =
    let len = x.0.c tgt + x.0.d tgt i in jump_loop tgt n (i + 1) (improve i tgt len (sum_int len x))

-- `updateDV(tgtRID)`; `n` is `totRouterNum`.
pub update_dv : ℕ → ℕ → Dv → Dv × Bool
update_dv n tgt v = jump_loop tgt n 1 (direct_loop n 1 (v, false))

-- `updateDV(exRID, exDV, version)`
pub receive_dv : ℕ → ℕ → Fun ℕ → ℕ → Dv → Dv × Bool
unfolding update_dv
receive_dv n ex_rid ex_dv version v =
    if ltb version v.version
    then (v, false)
    else (let v' : Dv =
          if ltb v.version version then reset (record v { version = version }) else v in
        update_dv n ex_rid (record v' { d = put v'.d ex_rid ex_dv }))

-- A value of -1 closes the link.
pub link_cost : Option ℕ → ℕ
link_cost none = no_path
link_cost (some k) = k

-- `updateC(tgtRID, value)`: its result, `lstChangeVersion` afterwards, and the vector.
pub update_c : ℕ → ℕ → Option ℕ → ℕ → Dv → (ℤ × ℕ) × Dv
unfolding update_dv link_cost
update_c n tgt value last v =
    let len = link_cost value in
    if v.c tgt == len
    then ((pos 0, last), v)
    else if ltb len (v.c tgt)
    then ((minus_one, last), (update_dv n tgt (record v { c = put v.c tgt len })).0)
    else (let v' = reset (record v { version = last + 1 }) in
        ((pos 1, last + 1), (update_dv n tgt (record v' { c = put v.c tgt len })).0))
