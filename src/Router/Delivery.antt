-- ===== src/Router/Delivery.antt =====
-- router.cc: the sends of `route` at each interface.
use cs144_introduction_to_co.Prelude.{
  ℕ, suc, zero, ◌≡◌, ◌≢◌, refl, sym, ap, subst, ◌∙◌, inl, inr, arith, Bool, true, false, Option,
  none, some, List, [], ◌∷◌, ◌++◌, get_elem?, set, length, ◌==◌, if◌then◌else◌, Bool-cases,
}
use cs144_introduction_to_co.Ipv4Datagram.{Ipv4Datagram}
use cs144_introduction_to_co.NetworkInterface.{NetworkInterface, Outcome}
use cs144_introduction_to_co.NetworkInterface
use cs144_introduction_to_co.NetworkInterface.Sound.{OnReturn, weaken}
use cs144_introduction_to_co.Router.{RouteElem, Forward, route_one_datagram}
use cs144_introduction_to_co.Router.Interfaces.{
  AsyncNetworkInterface, Router, put, send_on, forward, route_datagram, then_router, route_queue,
}

-- What one interface is told to send: the datagrams whose route leads to it, in their order, each with
-- its time to live as the table's decision says, and its next hop.
abbrev pub addressed_by :
    ℕ → Ipv4Datagram → Option Forward → List (Ipv4Datagram × ℕ) → List (Ipv4Datagram × ℕ)
addressed_by j dgram none rest = rest
addressed_by j dgram (some f) rest =
    if f.interface_num == j
    then (record dgram { header = record (dgram.header) { ttl = f.ttl } }, f.next_hop) ∷ rest
    else rest

abbrev pub addressed : List RouteElem → ℕ → List Ipv4Datagram → List (Ipv4Datagram × ℕ)
addressed routes j [] = []
addressed routes j (dgram ∷ rest) =
    addressed_by j dgram (route_one_datagram routes dgram.header.dst dgram.header.ttl)
      (addressed routes j rest)

-- An interface that sends one after another.
abbrev pub then_interface :
    Outcome NetworkInterface
    → (NetworkInterface → Outcome NetworkInterface)
    → Outcome NetworkInterface
then_interface (Outcome.returns n) k = k n
then_interface Outcome.throws k = Outcome.throws
then_interface (Outcome.undefined n) k = Outcome.undefined n

abbrev pub sends : NetworkInterface → List (Ipv4Datagram × ℕ) → Outcome NetworkInterface
sends n [] = Outcome.returns n
sends n ((dgram, hop) ∷ rest) =
    then_interface (NetworkInterface.send_datagram n dgram hop) (λ m. sends m rest)

-- `q` is `r` after each interface has sent what of `ds` is for it.
pub record Delivered (r q : Router) (ds : List Ipv4Datagram) : Type 0 where
  pub routes : q.routes ≡ r.routes
  pub size : length q.interfaces ≡ length r.interfaces
  pub each :
      (j : ℕ) (a : AsyncNetworkInterface)
      → get_elem? r.interfaces j ≡ some a
      → (n : NetworkInterface) × (get_elem? q.interfaces j ≡ some (record a { interface = n }))
        × (sends a.interface (addressed r.routes j ds) ≡ Outcome.returns n)

module _ {ℓ} {A : Type ℓ} where
  pub get-set_self :
      (xs : List A) (i : ℕ) (a b : A) → get_elem? xs i ≡ some a → get_elem? (set xs i b) i ≡ some b
  get-set_self [] i a b e = cc
  get-set_self (x ∷ xs) zero a b e = refl
  get-set_self (x ∷ xs) (suc i) a b e = get-set_self xs i a b e

  pub get-set_other :
      (xs : List A) (i j : ℕ) (b : A) → i ≢ j → get_elem? (set xs i b) j ≡ get_elem? xs j
  get-set_other [] i j b h = refl
  get-set_other (x ∷ xs) zero zero b h = absurd (h refl)
  get-set_other (x ∷ xs) zero (suc j) b h = refl
  get-set_other (x ∷ xs) (suc i) zero b h = refl
  get-set_other (x ∷ xs) (suc i) (suc j) b h = get-set_other xs i j b (λ e. h (ap suc e))

  pub length-set : (xs : List A) (i : ℕ) (b : A) → length (set xs i b) ≡ length xs
  length-set [] i b = refl
  length-set (x ∷ xs) zero b = refl
  length-set (x ∷ xs) (suc i) b = ap suc (length-set xs i b)

nothing_sent : (r : Router) → Delivered r r []
nothing_sent r = record { routes = refl; size = refl; each = λ j a e. (a.interface, e, refl) }

-- What a datagram on its way to interface `f.interface_num` means for interface `j`.
alone :
    (n m : NetworkInterface) (dgram : Ipv4Datagram) (f : Forward)
    → let lowered : Ipv4Datagram = record dgram {
      header = record (dgram.header) { ttl = f.ttl };
    } in
      NetworkInterface.send_datagram n lowered f.next_hop ≡ Outcome.returns m
      → sends n (addressed_by f.interface_num dgram (some f) []) ≡ Outcome.returns m
alone n m dgram f e =
    let same : (f.interface_num == f.interface_num) ≡ true = ground arith in rw (same, e) refl

elsewhere :
    (n : NetworkInterface) (j : ℕ) (dgram : Ipv4Datagram) (f : Forward)
    → (f.interface_num == j) ≡ false
    → sends n (addressed_by j dgram (some f) []) ≡ Outcome.returns n
elsewhere n j dgram f e = rw e refl

same_interface :
    {a c : AsyncNetworkInterface} (o : Option AsyncNetworkInterface)
    → o ≡ some a
    → o ≡ some c
    → a ≡ c
same_interface o g k = cc

-- One datagram, by the decision of the table.
put_one :
    (r : Router) (dgram : Ipv4Datagram) (f : Forward) (a : AsyncNetworkInterface)
    (o : Outcome NetworkInterface)
    → get_elem? r.interfaces f.interface_num ≡ some a
    → o
      ≡ NetworkInterface.send_datagram a.interface
          (record dgram { header = record (dgram.header) { ttl = f.ttl } })
          f.next_hop
    → route_one_datagram r.routes dgram.header.dst dgram.header.ttl ≡ some f
    → OnReturn (λ q. Delivered r q (dgram ∷ [])) (put r f.interface_num a o)
put_one r dgram f a Outcome.throws g e d = tt
put_one r dgram f a (Outcome.undefined m) g e d = tt
put_one r dgram f a (Outcome.returns m) g e d =
    let i = f.interface_num in
    let b : AsyncNetworkInterface = record a { interface = m } in
    record {
      routes = refl;
      size = length-set r.interfaces i b;
      each = λ j c k. elim (Bool-cases (i == j)) [
        | inl same ↦
            let at : i ≡ j = ground arith in
            let w =
              same_interface (get_elem? r.interfaces i) g (ap (get_elem? r.interfaces) at ∙ k) in
            subst
              (λ x.
                (n : NetworkInterface) × (get_elem? (set r.interfaces i b) j
                  ≡ some (record x { interface = n }))
                × (sends x.interface (addressed r.routes j (dgram ∷ [])) ≡ Outcome.returns n))
              w
              (
                m,
                ap (get_elem? (set r.interfaces i b)) (sym at) ∙ get-set_self r.interfaces i a b g,
                ap
                      (λ k. sends a.interface (
                        addressed_by k dgram
                          (route_one_datagram r.routes dgram.header.dst dgram.header.ttl) []))
                      (sym at)
                    ∙ ap (λ x. sends a.interface (addressed_by i dgram x [])) d
                    ∙ alone a.interface m dgram f (sym e),
              )
        | inr other ↦ (
          c.interface,
          get-set_other r.interfaces i j b (ground arith) ∙ k,
          ap (λ x. sends c.interface (addressed_by j dgram x [])) d
              ∙ elsewhere c.interface j dgram f other,
        )
      ];
    }

send_one :
    (r : Router) (dgram : Ipv4Datagram) (f : Forward) (o : Option AsyncNetworkInterface)
    → get_elem? r.interfaces f.interface_num ≡ o
    → route_one_datagram r.routes dgram.header.dst dgram.header.ttl ≡ some f
    → OnReturn
        (λ q. Delivered r q (dgram ∷ []))
        (send_on r f (record dgram { header = record (dgram.header) { ttl = f.ttl } }) o)
send_one r dgram f none g d = tt
send_one r dgram f (some a) g d = put_one r dgram f a _ g refl d

forward_one :
    (r : Router) (dgram : Ipv4Datagram) (x : Option Forward)
    → route_one_datagram r.routes dgram.header.dst dgram.header.ttl ≡ x
    → OnReturn (λ q. Delivered r q (dgram ∷ [])) (forward r dgram x)
forward_one r dgram none d = record {
  routes = refl;
  size = refl;
  each = λ j a e. (a.interface, e, ap (λ x. sends a.interface (addressed_by j dgram x [])) d);
}
forward_one r dgram (some f) d = send_one r dgram f (get_elem? r.interfaces f.interface_num) refl d

route_datagram-Delivered :
    (r : Router) (dgram : Ipv4Datagram)
    → OnReturn (λ q. Delivered r q (dgram ∷ [])) (route_datagram r dgram)
unfolding route_datagram
route_datagram-Delivered r dgram =
    forward_one r dgram (route_one_datagram r.routes dgram.header.dst dgram.header.ttl) refl

slides_by :
    (j : ℕ) (x : Ipv4Datagram) (f : Forward) (b : Bool) (xs ys : List (Ipv4Datagram × ℕ))
    → let e : Ipv4Datagram × ℕ =
        (record x { header = record (x.header) { ttl = f.ttl } }, f.next_hop) in
      (if b then e ∷ (xs ++ ys) else xs ++ ys) ≡ (if b then e ∷ xs else xs) ++ ys
slides_by j x f true xs ys = refl
slides_by j x f false xs ys = refl

slides :
    (j : ℕ) (x : Ipv4Datagram) (o : Option Forward) (xs ys : List (Ipv4Datagram × ℕ))
    → addressed_by j x o (xs ++ ys) ≡ addressed_by j x o xs ++ ys
slides j x none xs ys = refl
slides j x (some f) xs ys = slides_by j x f (f.interface_num == j) xs ys

pub addressed-append :
    (routes : List RouteElem) (j : ℕ) (xs ys : List Ipv4Datagram)
    → addressed routes j (xs ++ ys) ≡ addressed routes j xs ++ addressed routes j ys
addressed-append routes j [] ys = refl
addressed-append routes j (x ∷ xs) ys =
    ap (addressed_by j x (route_one_datagram routes x.header.dst x.header.ttl))
      (addressed-append routes j xs ys)
    ∙ slides j x (route_one_datagram routes x.header.dst x.header.ttl) (addressed routes j xs)
        (addressed routes j ys)

carries_on :
    (o : Outcome NetworkInterface) (m : NetworkInterface) (xs ys : List (Ipv4Datagram × ℕ))
    → ((k : NetworkInterface) → sends k xs ≡ Outcome.returns m → sends k (xs ++ ys) ≡ sends m ys)
    → then_interface o (λ k. sends k xs) ≡ Outcome.returns m
    → then_interface o (λ k. sends k (xs ++ ys)) ≡ sends m ys
carries_on (Outcome.returns n) m xs ys f e = f n e
carries_on Outcome.throws m xs ys f e = cc
carries_on (Outcome.undefined n) m xs ys f e = cc

pub sends-append :
    (n m : NetworkInterface) (xs ys : List (Ipv4Datagram × ℕ))
    → sends n xs ≡ Outcome.returns m
    → sends n (xs ++ ys) ≡ sends m ys
sends-append n m [] ys e = ap (λ o. then_interface o (λ k. sends k ys)) e
sends-append n m ((d, hop) ∷ xs) ys e =
    carries_on (NetworkInterface.send_datagram n d hop) m xs ys (λ k. sends-append k m xs ys) e

-- Deliveries one after the other are a delivery of all.
pub Delivered-trans :
    (r q p : Router) (xs ys : List Ipv4Datagram)
    → Delivered r q xs
    → Delivered q p ys
    → Delivered r p (xs ++ ys)
Delivered-trans r q p xs ys f g = record {
  routes = g.routes ∙ f.routes;
  size = g.size ∙ f.size;
  each = λ j a e.
      let (n, at, sent) = f.each j a e in
      let (m, at', sent') = g.each j (record a { interface = n }) at in
      (
        m,
        at',
        ap (sends a.interface) (addressed-append r.routes j xs ys)
            ∙ sends-append a.interface n (addressed r.routes j xs) (addressed r.routes j ys) sent
            ∙ ap (λ t. sends n (addressed t j ys)) (sym f.routes)
            ∙ sent',
      );
}

and_then :
    (r : Router) (xs ys : List Ipv4Datagram) (o : Outcome Router) (k : Router → Outcome Router)
    → OnReturn (λ q. Delivered r q xs) o
    → ((q : Router) → OnReturn (λ p. Delivered q p ys) (k q))
    → OnReturn (λ p. Delivered r p (xs ++ ys)) (then_router o k)
and_then r xs ys (Outcome.returns q) k h f =
    weaken (k q) (λ p g. Delivered-trans r q p xs ys h g) (f q)
and_then r xs ys Outcome.throws k h f = tt
and_then r xs ys (Outcome.undefined q) k h f = tt

pub route_queue-Delivered :
    (r : Router) (ds : List Ipv4Datagram) → OnReturn (λ q. Delivered r q ds) (route_queue r ds)
unfolding route_queue
route_queue-Delivered r [] = nothing_sent r
route_queue-Delivered r (d ∷ ds) =
    and_then r (d ∷ []) ds (route_datagram r d) (λ q. route_queue q ds)
      (route_datagram-Delivered r d) (λ q. route_queue-Delivered q ds)
