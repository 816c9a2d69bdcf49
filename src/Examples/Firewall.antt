-- ===== src/Examples/Firewall.antt =====
-- A firewall of three chains, two of which call each other.
use mavtables.Prelude.{
  ℕ, zero, suc, ◌+◌, ◌*◌, ◌≡◌, ◌≢◌, refl, Bool, true, false, none, some, [], ◌∷◌, codes, arith,
}
use mavtables.Prelude.Int.{ℤ, pos}
use mavtables.Prelude.Exception.{ok, err, IsReal, recursion_error}
use mavtables.MavAddress.{MavAddress, construct}
use mavtables.MavSubnet
use mavtables.MavSubnet.{MavSubnet}
use mavtables.PacketV1
use mavtables.Packet
use mavtables.Packet.{Packet}
use mavtables.If
use mavtables.If.{If}
use mavtables.Action.{make_accept}
use mavtables.Rule.{Rule}
use mavtables.Chain
use mavtables.Chain.{Chain, Heap}
use mavtables.Chain.Ideal.{chain_outcome, rules_outcome, rule_outcome}
use mavtables.Chain.Gives.{rules_at, is_held}
use mavtables.Chain.Agrees.{action-chain_outcome}
use mavtables.Chain.Found.{action-finds_outcome}
use mavtables.Filter
use mavtables.Filter.{Filter}
use mavtables.Filter.Verdict.{Verdict, will_accept-terminates, will_accept-Verdict}
use mavtables.Examples.Packets.{heartbeat}

-- 127.0/8
abbrev own_network : MavSubnet
own_network = record { address = record { address = 127 * 256 }; mask = 0xff00 }

abbrev own_address : MavAddress
own_address = record { address = 127 * 256 + 1 }

-- Heartbeats from 127.0/8
abbrev own_heartbeats : If
own_heartbeats = record { id = some 0; source = some own_network; dest = none }

abbrev ground_station : MavAddress
ground_station = record { address = 192 * 256 + 168 }

-- The default chain calls the second one with priority 3; the second and third reach each other
-- for other packets.
abbrev chains : Heap
chains =
    record {
      name = codes "default";
      rules = Rule.call 1 (some (pos 3)) none ∷ Rule.reject none ∷ [];
      calling_threads = [];
    }
    ∷ record {
      name = codes "own";
      rules = Rule.accept none (some own_heartbeats) ∷ Rule.goto 2 none none ∷ [];
      calling_threads = [];
    }
    ∷ record { name = codes "loop"; rules = Rule.call 1 none none ∷ []; calling_threads = 5 ∷ [] }
    ∷ []

outside : (d : ℕ) → is_held 1 chains d ≡ false
unfolding is_held
outside zero = refl
outside (suc zero) = refl
outside (suc (suc zero)) = refl
outside (suc (suc (suc d))) = refl

heartbeat_outcome :
    chain_outcome heartbeat ground_station (rules_at chains) 2 0
    ≡ some (ok (make_accept (some (pos 3))))
unfolding chain_outcome rules_at rules_outcome rule_outcome If.check If.check_id If.check_source
    If.check_dest Packet.id Packet.id_of Packet.source Packet.source_of PacketV1.id PacketV1.source
    PacketV1.the_header PacketV1.header PacketV1.cast_header PacketV1.header_complete
    PacketV1.starts construct MavSubnet.contains
heartbeat_outcome = refl

action-chain_outcome_example :
    Chain.action 1 heartbeat ground_station 4 0 chains ≡ (ok (make_accept (some (pos 3))), chains)
action-chain_outcome_example =
    action-chain_outcome heartbeat ground_station 1 2 0 chains (ok (make_accept (some (pos 3))))
      outside heartbeat_outcome

no_recursion : (Chain.action 1 heartbeat ground_station 4 0 chains).0 ≢ err recursion_error
no_recursion e = ground (
  arith,
  action-chain_outcome heartbeat ground_station 1 2 0 chains (ok (make_accept (some (pos 3))))
      outside heartbeat_outcome,
)

action-finds_outcome_example :
    chain_outcome heartbeat ground_station (rules_at chains) 4 0
    ≡ some (Chain.action 1 heartbeat ground_station 4 0 chains).0
action-finds_outcome_example = action-finds_outcome heartbeat ground_station 1 0 chains no_recursion

abbrev filter : Filter
filter = record { default_chain = 0; accept_by_default = true }

will_accept-terminates_example :
    IsReal (Filter.will_accept 5 filter heartbeat ground_station chains).0
    × ((Filter.will_accept 5 filter heartbeat ground_station chains).1 ≡ chains)
will_accept-terminates_example = will_accept-terminates 5 filter heartbeat ground_station chains

will_accept-Verdict_example :
    ((v : Bool × ℤ) × (Filter.will_accept 1 filter heartbeat ground_station chains ≡ (ok v, chains))
      × Verdict true (make_accept (some (pos 3))) v)
will_accept-Verdict_example =
    will_accept-Verdict 1 filter heartbeat ground_station chains 2 (make_accept (some (pos 3)))
      outside heartbeat_outcome
