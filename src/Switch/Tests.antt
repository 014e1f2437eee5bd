-- ===== src/Switch/Tests.antt =====
-- Runs of the switch, and its theorems at concrete frames.
use networking_labs.Prelude.{◌≡◌, refl, List, [], ◌∷◌, arith}
use networking_labs.Prelude.Int.{pos, ◌-ℤ◌}
use networking_labs.Prelude.Map.{lookup, insert}
use networking_labs.Switch.History.{
  Frame, Represents, recall, run, replay, expected_port, run-init_switch-Represents,
  process_frame_route,
}
use networking_labs.Switch.{
  MacAddr, EtherHeader, EthernetSwitch, mac_addr_to_long, init_switch, aging, process_frame,
}

abbrev alice : MacAddr
alice = 2 ∷ 0 ∷ 0 ∷ 0 ∷ 0 ∷ 1 ∷ []

abbrev bob : MacAddr
bob = 2 ∷ 0 ∷ 0 ∷ 0 ∷ 0 ∷ 2 ∷ []

abbrev data_frame : MacAddr → MacAddr → EtherHeader
data_frame src dest = record {
  ether_dest = dest;
  ether_src = src;
  ether_type = 0;
  ether_length = 16;
}

abbrev control_frame : EtherHeader
control_frame = record (data_frame alice bob) { ether_type = 1 }

abbrev empty_switch : EthernetSwitch
empty_switch = record { table = [] }

abbrev frames : List Frame
frames = (pos 1, data_frame alice bob) ∷ (pos 0, control_frame) ∷ (pos 2, data_frame bob alice) ∷ []

-- Alice is unknown, so her frame is flooded; Bob's answer then goes to her port.
flood_then_forward :
    ((process_frame empty_switch (pos 1) (data_frame alice bob)).1 ≡ pos 0)
    × ((process_frame (run empty_switch frames) (pos 2) (data_frame bob alice)).1 ≡ pos 1)
unfolding process_frame mac_addr_to_long run lookup insert aging ◌-ℤ◌
flood_then_forward = (refl, refl)

empty-Represents : Represents empty_switch []
unfolding lookup recall
empty-Represents = record { once = tt; says = λ a. refl }

run-init_switch-Represents_example :
    Represents (run (init_switch 4 empty_switch) frames) (replay [] frames)
run-init_switch-Represents_example = run-init_switch-Represents 4 empty_switch frames

process_frame_route_example :
    (process_frame empty_switch (pos 1) (data_frame alice bob)).1
    ≡ expected_port (recall (mac_addr_to_long bob) 0 ((pos 1, data_frame alice bob) ∷ [])) (pos 1)
process_frame_route_example =
    process_frame_route empty_switch [] (pos 1) (data_frame alice bob) empty-Represents
      (omega arith)
