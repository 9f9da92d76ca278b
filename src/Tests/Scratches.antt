-- ===== src/Tests/Scratches.antt =====
-- Tests of the scratch tests.
use rn.Prelude.{◌≡◌, refl, [], ◌∷◌, fault}
use rn.Packet.Message.{request, packet_of}
use rn.Neighbour.{peer_is_responsible}
use rn.Scratch.{print_packet, test_peer_is_responsible, judge, all_tests_peer_is_responsible}
use rn.Scratch.Printing.{print_packet_lem}

-- All four tests of the responsibility succeed.
four_tests : all_tests_peer_is_responsible ≡ 1
unfolding test_peer_is_responsible judge peer_is_responsible
four_tests = refl

print_packet_lem_example : print_packet (packet_of (request 4 (107 ∷ []) [])) ≡ fault
print_packet_lem_example = print_packet_lem 4 (107 ∷ []) []
