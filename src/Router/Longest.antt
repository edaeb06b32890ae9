-- ===== src/Router/Longest.antt =====
-- router.cc: `find_longest_prefix` and `route_one_datagram`.
use cs144_introduction_to_co.Prelude.{
  ℕ, zero, suc, ◌+◌, ◌-◌, ◌≤◌, ◌<◌, ◌≡◌, ◌∙◌, sym, refl, ap, subst, arith, true, false, none, some,
  List, [], ◌∷◌, ◌++◌, append_assoc, append-nil, length, length-append, get_elem?, Bool-cases, inl,
  inr, ltb, dec_lt, ◌⊎◌, ◌&&◌, if◌then◌else◌,
}
use cs144_introduction_to_co.Router.{
  RouteElem, Search, longer, matches, visit, search_routes, find_longest_prefix, Forward, hop_of,
  along, at_index, route_one_datagram,
}

-- What is known of a search after the routes `seen`, in order.
pub data Best (dst : ℕ) (seen : List RouteElem) : Search → Type 0 where
  nothing :
      {f : Search}
      → f.count ≡ length seen
      → f.idx ≡ none
      → f.longest ≡ none
      → ((i : ℕ) (r : RouteElem) → get_elem? seen i ≡ some r → matches dst r ≡ false)
      → Best dst seen f
  found :
      {f : Search} (i : ℕ) (best : RouteElem)
      → f.count ≡ length seen
      → f.idx ≡ some i
      → f.longest ≡ some best.prefix_length
      → get_elem? seen i ≡ some best
      → matches dst best ≡ true
      → ((j : ℕ) (r : RouteElem)
          → get_elem? seen j ≡ some r
          → matches dst r ≡ true
          → (r.prefix_length ≤ best.prefix_length)
            × ((j < i) → r.prefix_length < best.prefix_length))
      → Best dst seen f

get_elem?-snoc :
    (seen : List RouteElem) (route : RouteElem) (i : ℕ) (r : RouteElem)
    → get_elem? (seen ++ route ∷ []) i ≡ some r
    → (get_elem? seen i ≡ some r) × (i < length seen) ⊎ (i ≡ length seen) × (route ≡ r)
get_elem?-snoc [] route zero r e = inr (refl, ground arith)
get_elem?-snoc [] route (suc i) r e = cc
get_elem?-snoc (x ∷ seen) route zero r e = inl (e, omega arith)
get_elem?-snoc (x ∷ seen) route (suc i) r e = elim (get_elem?-snoc seen route i r e) [
  | inl (a, b) ↦ inl (a, omega arith)
  | inr (a, b) ↦ inr (ap suc a, b)
]

get_elem?-old :
    (seen : List RouteElem) (route : RouteElem) (i : ℕ) (r : RouteElem)
    → get_elem? seen i ≡ some r
    → (get_elem? (seen ++ route ∷ []) i ≡ some r) × (i < length seen)
get_elem?-old [] route i r e = cc
get_elem?-old (x ∷ seen) route zero r e = (e, omega arith)
get_elem?-old (x ∷ seen) route (suc i) r e =
    let (a, b) = get_elem?-old seen route i r e in (a, omega arith)

get_elem?-last :
    (seen : List RouteElem) (route : RouteElem)
    → get_elem? (seen ++ route ∷ []) (length seen) ≡ some route
get_elem?-last [] route = refl
get_elem?-last (x ∷ seen) route = get_elem?-last seen route

-- The route at `i` is no shorter than any match of `seen`, and longer than those before it.
abbrev pub IsBest : ℕ → List RouteElem → ℕ → RouteElem → Type 0
IsBest dst seen i best =
    (j : ℕ) (r : RouteElem)
    → get_elem? seen j ≡ some r
    → matches dst r ≡ true
    → (r.prefix_length ≤ best.prefix_length) × ((j < i) → r.prefix_length < best.prefix_length)

first-IsBest :
    (dst : ℕ) (seen : List RouteElem) (route : RouteElem)
    → ((i : ℕ) (r : RouteElem) → get_elem? seen i ≡ some r → matches dst r ≡ false)
    → IsBest dst (seen ++ route ∷ []) (length seen) route
first-IsBest dst seen route h j r e t = elim (get_elem?-snoc seen route j r e) [
  | inl (a, b) ↦ let z = h j r a in cc
  | inr (a, b) ↦ let z = ap (λ x. x.prefix_length) b in (omega arith, λ q. omega arith)
]

last-unmatched :
    (dst : ℕ) (seen : List RouteElem) (route : RouteElem)
    → ((i : ℕ) (r : RouteElem) → get_elem? seen i ≡ some r → matches dst r ≡ false)
    → matches dst route ≡ false
    → (i : ℕ) (r : RouteElem) → get_elem? (seen ++ route ∷ []) i ≡ some r
    → matches dst r ≡ false
last-unmatched dst seen route h m i r e = elim (get_elem?-snoc seen route i r e) [
  | inl (a, b) ↦ h i r a
  | inr (a, b) ↦ ap (matches dst) (sym b) ∙ m
]

longer-IsBest :
    (dst : ℕ) (seen : List RouteElem) (route : RouteElem) (i : ℕ) (best : RouteElem)
    → IsBest dst seen i best
    → best.prefix_length < route.prefix_length
    → IsBest dst (seen ++ route ∷ []) (length seen) route
longer-IsBest dst seen route i best h l j r e t = elim (get_elem?-snoc seen route j r e) [
  | inl (a, b) ↦ let z = (h j r a t).0 in (omega arith, λ q. omega arith)
  | inr (a, b) ↦ let z = ap (λ x. x.prefix_length) b in (omega arith, λ q. omega arith)
]

same-IsBest :
    (dst : ℕ) (seen : List RouteElem) (route : RouteElem) (i : ℕ) (best : RouteElem)
    → IsBest dst seen i best
    → i < length seen
    → (matches dst route ≡ true → route.prefix_length ≤ best.prefix_length)
    → IsBest dst (seen ++ route ∷ []) i best
same-IsBest dst seen route i best h k l j r e t = elim (get_elem?-snoc seen route j r e) [
  | inl (a, b) ↦ h j r a t
  | inr (a, b) ↦
      let z = ap (λ x. x.prefix_length) b in
      let y = l (ap (matches dst) b ∙ t) in (omega arith, λ q. omega arith)
]

visit-skip :
    (dst : ℕ) (route : RouteElem) (f : Search)
    → (matches dst route && longer f.longest route.prefix_length) ≡ false
    → visit dst route f ≡ record f { count = f.count + 1 }
unfolding visit
visit-skip dst route f e = rw e

visit-keep :
    (dst : ℕ) (route : RouteElem) (f : Search)
    → (matches dst route && longer f.longest route.prefix_length) ≡ true
    → visit dst route f
      ≡ record { count = f.count + 1; idx = some f.count; longest = some route.prefix_length }
unfolding visit
visit-keep dst route f e = rw e

length-snoc :
    (seen : List RouteElem) (route : RouteElem) → length (seen ++ route ∷ []) ≡ length seen + 1
length-snoc seen route = length-append seen (route ∷ [])

visit-Best :
    (dst : ℕ) (seen : List RouteElem) (route : RouteElem) (f : Search)
    → Best dst seen f
    → Best dst (seen ++ route ∷ []) (visit dst route f)
visit-Best dst seen route f (nothing c x l h) = elim (Bool-cases (matches dst route)) [
  | inl m ↦
      let e : (matches dst route && longer f.longest route.prefix_length) ≡ true = rw (m, l) in
      rw (visit-keep dst route f e) (
        found (length seen) route (omega (arith, c, length-snoc seen route)) (ap some c) refl
          (get_elem?-last seen route) m (first-IsBest dst seen route h))
  | inr m ↦
      let e : (matches dst route && longer f.longest route.prefix_length) ≡ false = rw m in
      rw (visit-skip dst route f e)
        (nothing (omega (arith, c, length-snoc seen route)) x l (last-unmatched dst seen route h m))
]
visit-Best dst seen route f (found i best c x l g m h) =
    elim (Bool-cases (matches dst route && longer f.longest route.prefix_length)) [
      | inl e ↦ rw (visit-keep dst route f e) (
          found (length seen) route (omega (arith, c, length-snoc seen route)) (ap some c) refl
            (get_elem?-last seen route)
            (let z = subst (λ o. (matches dst route && longer o route.prefix_length) ≡ true) l e in
              ground arith)
            (longer-IsBest dst seen route i best h (
              let z = subst (λ o. (matches dst route && longer o route.prefix_length) ≡ true) l e in
              ground arith)))
      | inr e ↦ rw (visit-skip dst route f e) (
          found i best (omega (arith, c, length-snoc seen route)) x l
            ((get_elem?-old seen route i best g).0) m
            (same-IsBest dst seen route i best h ((get_elem?-old seen route i best g).1) (λ t.
              let z =
                subst (λ o. (matches dst route && longer o route.prefix_length) ≡ false) l e in
              ground arith)))
    ]

search_routes-Best :
    (dst : ℕ) (seen routes : List RouteElem) (f : Search)
    → Best dst seen f
    → Best dst (seen ++ routes) (search_routes dst routes f)
unfolding search_routes
search_routes-Best dst seen [] f b = rw (append-nil seen) b
search_routes-Best dst seen (route ∷ routes) f b =
    let rest =
      search_routes-Best dst (seen ++ route ∷ []) routes (visit dst route f)
        (visit-Best dst seen route f b) in
    subst (λ l. Best dst l (search_routes dst routes (visit dst route f)))
      (append_assoc seen (route ∷ []) routes) rest

-- The search answers no route exactly when none of the table matches the destination, and
-- else a route that matches it, with a prefix no shorter than that of any other match, and
-- longer than those of the matches before it in the table.
find_longest_prefix_lem :
    (routes : List RouteElem) (dst : ℕ)
    → (find_longest_prefix routes dst ≡ none)
        × ((i : ℕ) (r : RouteElem) → get_elem? routes i ≡ some r → matches dst r ≡ false)
      ⊎ ((i : ℕ) × (best : RouteElem) × (find_longest_prefix routes dst ≡ some i)
          × (get_elem? routes i ≡ some best)
          × (matches dst best ≡ true)
          × IsBest dst routes i best)
unfolding find_longest_prefix
find_longest_prefix_lem routes dst =
    let start : Search = record { longest = none; idx = none; count = 0 } in
    elim (search_routes-Best dst [] routes start (nothing refl refl refl (λ i r e. ground arith))) [
      | nothing c x l h ↦ inl (x, h)
      | found i best c x l g m h ↦ inr (i, best, x, g, m, h)
    ]

-- A datagram is forwarded only when its time to live is above one, along the longest match of
-- the table, with its time to live lowered by one, to the route's next hop or, where the
-- route has none, to the destination itself.
pub route_one_datagram_sound :
    (routes : List RouteElem) (dst ttl : ℕ) (out : Forward)
    → route_one_datagram routes dst ttl ≡ some out
    → (1 < ttl)
      × (i : ℕ) × (best : RouteElem) × (get_elem? routes i ≡ some best)
      × (matches dst best ≡ true)
      × IsBest dst routes i best
      × (out ≡ record {
        interface_num = best.interface_num;
        ttl = ttl - 1;
        next_hop = hop_of best.next_hop dst;
      })
unfolding route_one_datagram
route_one_datagram_sound routes dst ttl out e = elim (dec_lt 1 ttl) [
  | no h ↦ ground arith
  | yes h ↦ elim (find_longest_prefix_lem routes dst) [
    | inl (x, k) ↦
        let z =
          subst (λ o. (if ltb 1 ttl then along dst ttl (at_index routes o) else none) ≡ some out) x
            e in
        ground arith
    | inr (i, best, x, g, m, k) ↦
        let t : ltb 1 ttl ≡ true = ground arith in
        let z =
          subst (λ o. (if ltb 1 ttl then along dst ttl (at_index routes o) else none) ≡ some out) x
            e in
        let y =
          subst (λ b. (if b then along dst ttl (get_elem? routes i) else none) ≡ some out) t z in
        let w = subst (λ o. along dst ttl o ≡ some out) g y in (h, i, best, g, m, k, cc)
  ]
]
