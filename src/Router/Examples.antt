-- ===== src/Router/Examples.antt =====
-- Tests of router.cc: a table with a default route, 172.16.0.0/16 and 192.168.0.0/24.
use cs144_introduction_to_co.Prelude.{
  ℕ, ◌+◌, ◌*◌, ◌<◌, ◌≡◌, refl, arith, List, [], get_elem?, none, some, true,
}
use cs144_introduction_to_co.Router.{
  RouteElem, Forward, add_route, matches, mask, hop_of, find_longest_prefix, route_one_datagram,
  search_routes, visit,
}
use cs144_introduction_to_co.Router.Longest.{IsBest, route_one_datagram_sound}
use cs144_introduction_to_co.Prelude.{◌∷◌}
use cs144_introduction_to_co.BufferList
use cs144_introduction_to_co.EthernetHeader.{filled}
use cs144_introduction_to_co.Ipv4Header.{default_header}
use cs144_introduction_to_co.Ipv4Header
use cs144_introduction_to_co.Ipv4Datagram.{Ipv4Datagram}
use cs144_introduction_to_co.Ipv4Datagram
use cs144_introduction_to_co.NetworkInterface.{NetworkInterface, make_interface}
use cs144_introduction_to_co.Router.Interfaces.{Router}

abbrev default_hop : ℕ
default_hop = 171 * 16777216 + 67 * 65536 + 76 * 256 + 1

abbrev campus : ℕ
campus = 172 * 16777216 + 16 * 65536

abbrev home : ℕ
home = 192 * 16777216 + 168 * 65536

abbrev table : List RouteElem
table =
    add_route (add_route (add_route [] 0 0 (some default_hop) 0) campus 16 none 1) home 24 none 2

to_home : find_longest_prefix table (home + 7) ≡ some 2
unfolding find_longest_prefix search_routes visit matches mask add_route
to_home = refl

beyond : find_longest_prefix table (home + 256) ≡ some 0
unfolding find_longest_prefix search_routes visit matches mask add_route
beyond = refl

expired : route_one_datagram table (home + 7) 1 ≡ none
unfolding route_one_datagram
expired = ground arith

abbrev forwarded : Forward
forwarded = record { interface_num = 1; ttl = 63; next_hop = campus + 9 }

forwards : route_one_datagram table (campus + 9) 64 ≡ some forwarded
unfolding route_one_datagram find_longest_prefix search_routes visit matches mask add_route
forwards = refl

route_one_datagram_sound_example :
    (1 < 64)
    × (i : ℕ) × (best : RouteElem) × (get_elem? table i ≡ some best)
    × (matches (campus + 9) best ≡ true)
    × IsBest (campus + 9) table i best
    × (forwarded ≡ record {
      interface_num = best.interface_num;
      ttl = 63;
      next_hop = hop_of best.next_hop (campus + 9);
    })
route_one_datagram_sound_example = route_one_datagram_sound table (campus + 9) 64 forwarded forwards

-- A router with one route, from the first of its two interfaces, where a datagram waits, to the second.
abbrev parcel : Ipv4Datagram
parcel = record Ipv4Datagram.blank { header = record default_header { len = 20; dst = 7 } }

abbrev node : Router
node = record {
  interfaces =
      record { interface = make_interface (filled 1) 1; datagrams_out = parcel ∷ [] }
      ∷ record { interface = make_interface (filled 2) 2; datagrams_out = [] }
      ∷ [];
  routes = record { route_prefix = 0; prefix_length = 0; next_hop = none; interface_num = 1 } ∷ [];
}
