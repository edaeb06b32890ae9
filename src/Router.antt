-- ===== src/Router.antt =====
-- router.hh and router.cc: the routing table and the search for the longest matching prefix.
pub mod Longest
pub mod Interfaces
pub mod Delivery
pub mod Routing
pub mod Total
mod Examples
use cs144_introduction_to_co.Prelude.{
  ℕ, ◌+◌, ◌-◌, ◌*◌, ◌/◌, ◌%◌, ◌^◌, Bool, true, false, ◌&&◌, Option, none, some, List, [], ◌∷◌, ◌++◌,
  get_elem?, ltb, leb, ◌==◌, if◌then◌else◌,
}
use Prim.Native.Nat.{bit_and}

-- `RouteElem`; an `Address` is its 32-bit number.
pub record RouteElem : Type 0 where
  pub route_prefix : ℕ
  pub prefix_length : ℕ
  pub next_hop : Option ℕ
  pub interface_num : ℕ

unfoldable pub add_route : List RouteElem → ℕ → ℕ → Option ℕ → ℕ → List RouteElem
add_route routes route_prefix prefix_length next_hop interface_num =
    routes
    ++ record {
      route_prefix = route_prefix;
      prefix_length = prefix_length;
      next_hop = next_hop;
      interface_num = interface_num;
    }
      ∷ []

-- `0xffffffff << (32 - len)`, as a `uint32_t`; the mask of length 0 is 0. For a length above 32 the
-- count of the shift is negative, which is undefined in the source; here it is then 0.
unfoldable pub mask : ℕ → ℕ
mask prefix_length =
    if prefix_length == 0 then 0 else (0xffffffff * 2 ^ (32 - prefix_length)) % 2 ^ 32

unfoldable pub matches : ℕ → RouteElem → Bool
unfolding mask
matches dst route =
    bit_and (mask route.prefix_length) dst == bit_and (mask route.prefix_length) route.route_prefix

-- The variables of the search; `none` is the `-1` of the two `int`s.
pub record Search : Type 0 where
  pub longest : Option ℕ
  pub idx : Option ℕ
  pub count : ℕ

abbrev pub longer : Option ℕ → ℕ → Bool
longer none len = true
longer (some l) len = ltb l len

unfoldable pub visit : ℕ → RouteElem → Search → Search
visit dst route f =
    let next = record f { count = f.count + 1 } in
    if matches dst route && longer f.longest route.prefix_length
    then record next { idx = some f.count; longest = some route.prefix_length }
    else next

unfoldable pub search_routes : ℕ → List RouteElem → Search → Search
unfolding visit
search_routes dst [] f = f
search_routes dst (route ∷ routes) f = search_routes dst routes (visit dst route f)

unfoldable pub find_longest_prefix : List RouteElem → ℕ → Option ℕ
find_longest_prefix routes dst =
    (search_routes dst routes (record { longest = none; idx = none; count = 0 })).idx

-- What `route_one_datagram` tells an interface: which one, the new time to live, and the next hop.
pub record Forward : Type 0 where
  pub interface_num : ℕ
  pub ttl : ℕ
  pub next_hop : ℕ

abbrev pub hop_of : Option ℕ → ℕ → ℕ
hop_of none dst = dst
hop_of (some hop) dst = hop

abbrev pub along : ℕ → ℕ → Option RouteElem → Option Forward
along dst ttl none = none
along dst ttl (some route) = some (record {
  interface_num = route.interface_num;
  ttl = ttl - 1;
  next_hop = hop_of route.next_hop dst;
})

abbrev pub at_index : List RouteElem → Option ℕ → Option RouteElem
at_index routes none = none
at_index routes (some i) = get_elem? routes i

-- `none` where the datagram is dropped.
unfoldable pub route_one_datagram : List RouteElem → ℕ → ℕ → Option Forward
route_one_datagram routes dst ttl =
    if ltb 1 ttl then along dst ttl (at_index routes (find_longest_prefix routes dst)) else none
