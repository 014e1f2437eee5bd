-- ===== src/Switch/History.antt =====
-- switch.cc against what a switch promises: the table is what the frames seen so far say.
use networking_labs.Prelude.{
  ℕ, zero, suc, ◌+◌, ◌-◌, ◌<◌, ◌≡◌, ◌≢◌, refl, ap, ◌∙◌, Option, none, some, List, [], ◌∷◌, arith,
  ◌==◌, ltb, if◌then◌else◌,
}
use networking_labs.Prelude.Int.{ℤ, pos, ◌-ℤ◌, ◌==ℤ◌, ==ℤ_iff, minus_one}
use networking_labs.Prelude.Map.{IsMap, lookup, lookup-insert, insert-IsMap}
use networking_labs.Switch.Aging.{aged, lookup-aging, aging-IsMap}
use networking_labs.Switch.{
  Entry, EtherHeader, EthernetSwitch, ether_control_type, mac_addr_to_long, init_switch, aging,
  process_frame,
}

-- A frame with the port that it came in on. A history has the newest frame first.
abbrev pub Frame : Type 0
Frame = ℤ × EtherHeader

-- What is known of a station whose last data frame came in on port `p`, `n` control frames ago.
abbrev pub remembered : ℤ → ℕ → Option Entry
remembered p n = if ltb n 10 then some (record { port = p; life_time = pos (10 - n) }) else none

-- The newest data frame from `a` tells its port, if fewer than ten control frames came since; `n`
-- control frames have been passed.
unfoldable pub recall : ℕ → ℕ → List Frame → Option Entry
recall a n [] = none
recall a n ((p, header) ∷ h) =
    if header.ether_type == ether_control_type
    then recall a (n + 1) h
    else if mac_addr_to_long header.ether_src == a
    then remembered p n
    else recall a n h

-- The table holds each address once, and for each what the history says.
pub record Represents (sw : EthernetSwitch) (h : List Frame) : Type 0 where
  pub once : IsMap sw.table
  pub says : (a : ℕ) → lookup a sw.table ≡ recall a 0 h

unfoldable pub run : EthernetSwitch → List Frame → EthernetSwitch
run sw [] = sw
run sw ((p, header) ∷ fs) = run (process_frame sw p header).0 fs

aged-recall : (a n : ℕ) (h : List Frame) → aged (recall a n h) ≡ recall a (n + 1) h
unfolding recall ◌-ℤ◌
aged-recall a n [] = refl
aged-recall a n ((p, header) ∷ h) = ground (arith, aged-recall a (n + 1) h, aged-recall a n h)

init_switch-Represents : (k : ℕ) (sw : EthernetSwitch) → Represents (init_switch k sw) []
unfolding init_switch lookup recall
init_switch-Represents k sw = record { once = tt; says = λ a. refl }

-- A frame, of control or data, keeps the table in step with the history.
pub process_frame-Represents :
    (sw : EthernetSwitch) (h : List Frame) (p : ℤ) (header : EtherHeader)
    → Represents sw h
    → Represents (process_frame sw p header).0 ((p, header) ∷ h)
unfolding process_frame recall
process_frame-Represents sw h p header r = record {
  once = ground (
    arith,
    aging-IsMap sw r.once,
    insert-IsMap (mac_addr_to_long header.ether_src) (record { port = p; life_time = pos 10 })
        sw.table r.once,
  );
  says = λ a. ground (
    arith,
    lookup-aging a sw r.once,
    r.says a,
    aged-recall a 0 h,
    lookup-insert a (mac_addr_to_long header.ether_src) (record { port = p; life_time = pos 10 })
        sw.table,
  );
}

-- The newest frame of a list of frames becomes the head of the history.
abbrev pub replay : List Frame → List Frame → List Frame
replay h [] = h
replay h (f ∷ fs) = replay (f ∷ h) fs

run-Represents_from :
    (fs : List Frame) (sw : EthernetSwitch) (h : List Frame)
    → Represents sw h
    → Represents (run sw fs) (replay h fs)
unfolding run
run-Represents_from [] sw h r = r
run-Represents_from ((p, header) ∷ fs) sw h r =
    run-Represents_from fs (process_frame sw p header).0 ((p, header) ∷ h)
      (process_frame-Represents sw h p header r)

-- After any frames the switch's table holds each address once, and for each address what the
-- history of the frames says: the port of its newest data frame with the life that is left, if
-- fewer than ten control frames came since.
pub run-init_switch-Represents :
    (k : ℕ) (sw : EthernetSwitch) (fs : List Frame)
    → Represents (run (init_switch k sw) fs) (replay [] fs)
run-init_switch-Represents k sw fs =
    run-Represents_from fs (init_switch k sw) [] (init_switch-Represents k sw)

-- No frame is sent out on the port it came in on, for a port of at least 1.
pub process_frame_no_echo :
    (sw : EthernetSwitch) (n : ℕ) (header : EtherHeader)
    → 0 < n
    → (process_frame sw (pos n) header).1 ≢ pos n
unfolding process_frame
process_frame_no_echo sw n header h = ground arith

unfoldable pub aging_times : ℕ → EthernetSwitch → EthernetSwitch
aging_times zero sw = sw
aging_times (suc n) sw = aging_times n (aging sw)

aged-remembered : (p : ℤ) (n : ℕ) → aged (remembered p n) ≡ remembered p (n + 1)
unfolding ◌-ℤ◌
aged-remembered p n = ground arith

lookup-aging_times :
    (n k a : ℕ) (p : ℤ) (sw : EthernetSwitch)
    → IsMap sw.table
    → lookup a sw.table ≡ remembered p k
    → lookup a (aging_times n sw).table ≡ remembered p (k + n)
unfolding aging_times
lookup-aging_times zero k a p sw once e = e ∙ ap (remembered p) (omega arith)
lookup-aging_times (suc n) k a p sw once e =
    lookup-aging_times n (k + 1) a p (aging sw) (aging-IsMap sw once)
      (lookup-aging a sw once ∙ ap aged e ∙ aged-remembered p k)
    ∙ ap (remembered p) (omega arith)

-- After a data frame and n control frames, the entry of its source has its port and n less of
-- life, and is gone from ten control frames on; where the table holds each address once.
pub process_frame_expires :
    (sw : EthernetSwitch) (p : ℤ) (header : EtherHeader) (n : ℕ)
    → IsMap sw.table
    → header.ether_type ≢ ether_control_type
    → lookup (mac_addr_to_long header.ether_src) (aging_times n (process_frame sw p header).0).table
      ≡ remembered p n
unfolding process_frame
process_frame_expires sw p header n once data_frame =
    lookup-aging_times n 0 (mac_addr_to_long header.ether_src) p (process_frame sw p header).0
      (ground (
        arith,
        insert-IsMap (mac_addr_to_long header.ether_src) (record { port = p; life_time = pos 10 })
            sw.table once,
      ))
      (ground (
        arith,
        lookup-insert (mac_addr_to_long header.ether_src) (mac_addr_to_long header.ether_src)
            (record { port = p; life_time = pos 10 }) sw.table,
      ))
    ∙ ap (remembered p) (omega arith)

-- What a switch owes a data frame that came in on port `p`.
abbrev pub expected_port : Option Entry → ℤ → ℤ
expected_port none p = pos 0
expected_port (some e) p = if e.port ==ℤ p then minus_one else e.port

-- A data frame goes to the port that the history, this frame included, gives for its destination:
-- flooded if there is none, dropped if it is the port it came in on; for an address of 48 bits.
pub process_frame_route :
    (sw : EthernetSwitch) (h : List Frame) (p : ℤ) (header : EtherHeader)
    → Represents sw h
    → header.ether_type ≢ ether_control_type
    → (process_frame sw p header).1
      ≡ expected_port (recall (mac_addr_to_long header.ether_dest) 0 ((p, header) ∷ h)) p
unfolding process_frame
process_frame_route sw h p header r data_frame = ground (
  arith,
  (process_frame-Represents sw h p header r).says (mac_addr_to_long header.ether_dest),
  ==ℤ_iff p p,
)
