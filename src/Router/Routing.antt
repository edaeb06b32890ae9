-- ===== src/Router/Routing.antt =====
-- router.cc: the loops of `route` over the interfaces and their queues.
use cs144_introduction_to_co.Prelude.{
  ℕ, suc, zero, ◌+◌, ◌<◌, ◌≤◌, ◌≡◌, refl, sym, ap, subst, ◌∙◌, inl, inr, arith, Bool, true, false,
  ◌||◌, Option, none, some, List, [], ◌∷◌, ◌++◌, get_elem?, set, length, ◌==◌, if◌then◌else◌,
  Bool-cases,
}
use cs144_introduction_to_co.Ipv4Datagram.{Ipv4Datagram}
use cs144_introduction_to_co.NetworkInterface.{NetworkInterface, Outcome}
use cs144_introduction_to_co.NetworkInterface.Sound.{OnReturn, weaken}
use cs144_introduction_to_co.Router.Interfaces.{
  AsyncNetworkInterface, Router, then_router, route_queue, emptied, route_interface, route_from,
}
use cs144_introduction_to_co.Router.Delivery.{
  Delivered, addressed, sends, addressed-append, sends-append, get-set_self, get-set_other,
  length-set, route_queue-Delivered,
}

module _ {A : Type 0} where
  pub within : (xs : List A) (j : ℕ) (a : A) → get_elem? xs j ≡ some a → j < length xs
  within [] j a e = cc
  within (x ∷ xs) zero a e = omega arith
  within (x ∷ xs) (suc j) a e = omega (arith, within xs j a e)

  pub beyond : (xs : List A) (j : ℕ) → get_elem? xs j ≡ none → j < length xs → ⊥
  beyond [] j e l = omega arith
  beyond (x ∷ xs) zero e l = cc
  beyond (x ∷ xs) (suc j) e l = beyond xs j e (omega arith)

  one_value : {a b : A} → some a ≡ some b → a ≡ b
  one_value e = cc

-- `q` is `r` after each interface has sent what of `ds` is for it, and the queues that `emptied`
-- names are empty.
pub record Routed (r q : Router) (ds : List Ipv4Datagram) (clear : ℕ → Bool) : Type 0 where
  pub routes : q.routes ≡ r.routes
  pub size : length q.interfaces ≡ length r.interfaces
  pub each :
      (j : ℕ) (a : AsyncNetworkInterface)
      → get_elem? r.interfaces j ≡ some a
      → (n : NetworkInterface) × (get_elem? q.interfaces j
          ≡ some
              (record { interface = n; datagrams_out = if clear j then [] else a.datagrams_out }))
        × (sends a.interface (addressed r.routes j ds) ≡ Outcome.returns n)

both_clear :
    {A : Type 0} (x y : Bool) (d : List A)
    → (if y then [] else (if x then [] else d)) ≡ (if x || y then [] else d)
both_clear true true d = refl
both_clear true false d = refl
both_clear false true d = refl
both_clear false false d = refl

Routed-trans :
    (r q p : Router) (xs ys : List Ipv4Datagram) (x y : ℕ → Bool)
    → Routed r q xs x
    → Routed q p ys y
    → Routed r p (xs ++ ys) (λ j. x j || y j)
Routed-trans r q p xs ys x y f g = record {
  routes = g.routes ∙ f.routes;
  size = g.size ∙ f.size;
  each = λ j a e.
      let (n, at, sent) = f.each j a e in
      let b : AsyncNetworkInterface = record {
        interface = n;
        datagrams_out = if x j then [] else a.datagrams_out;
      } in
      let (m, at', sent') = g.each j b at in
      (
        m,
        at'
            ∙ ap (λ d. some (record { interface = m; datagrams_out = d }))
                (both_clear (x j) (y j) a.datagrams_out),
        ap (sends a.interface) (addressed-append r.routes j xs ys)
            ∙ sends-append a.interface n (addressed r.routes j xs) (addressed r.routes j ys) sent
            ∙ ap (λ t. sends n (addressed t j ys)) (sym f.routes)
            ∙ sent',
      );
}

abbrev pub queue_of : Option AsyncNetworkInterface → List Ipv4Datagram
queue_of none = []
queue_of (some a) = a.datagrams_out

no_round :
    (r : Router) (clear : ℕ → Bool)
    → ((j : ℕ) → j < length r.interfaces → clear j ≡ false)
    → Routed r r [] clear
no_round r clear h = record {
  routes = refl;
  size = refl;
  each = λ j a e.
      let l = within r.interfaces j a e in
      (
        a.interface,
        e
            ∙ ap
                (λ c. some (record {
                  interface = a.interface;
                  datagrams_out = if c then [] else a.datagrams_out;
                }))
                (sym (h j l)),
        refl,
      );
}

abbrev no_queue : AsyncNetworkInterface → AsyncNetworkInterface
no_queue a = record a { datagrams_out = [] }

-- The queue of one interface, after its datagrams were sent.
clears :
    (r q : Router) (i : ℕ) (ds : List Ipv4Datagram) (o : Option AsyncNetworkInterface)
    → Delivered r q ds
    → get_elem? q.interfaces i ≡ o
    → i < length r.interfaces
    → OnReturn (λ p. Routed r p ds (λ j. i == j)) (emptied i q o)
clears r q i ds none d e l = absurd (beyond q.interfaces i e (omega (arith, d.size)))
clears r q i ds (some b) d e l =
    let c : AsyncNetworkInterface = record b { datagrams_out = [] } in
    record {
      routes = d.routes;
      size = length-set q.interfaces i c ∙ d.size;
      each = λ j a k.
          let (n, at, sent) = d.each j a k in
          elim (Bool-cases (i == j)) [
            | inl same ↦
                let ij : i ≡ j = ground arith in
                let w : b ≡ record a { interface = n } =
                  one_value (sym e ∙ ap (get_elem? q.interfaces) ij ∙ at) in
                (
                  n,
                  ap (get_elem? (set q.interfaces i c)) (sym ij)
                      ∙ get-set_self q.interfaces i b c e
                      ∙ ap (λ x. some (no_queue x)) w
                      ∙ ap
                          (λ t. some (record {
                            interface = n;
                            datagrams_out = if t then [] else a.datagrams_out;
                          }))
                          (sym same),
                  sent,
                )
            | inr other ↦ (
              n,
              get-set_other q.interfaces i j c (ground arith)
                  ∙ at
                  ∙ ap
                      (λ t. some (record {
                        interface = n;
                        datagrams_out = if t then [] else a.datagrams_out;
                      }))
                      (sym other),
              sent,
            )
          ];
    }

chains :
    (P Q : Router → Type 0) (o : Outcome Router) (k : Router → Outcome Router)
    → OnReturn P o
    → ((q : Router) → P q → OnReturn Q (k q))
    → OnReturn Q (then_router o k)
chains P Q (Outcome.returns q) k h f = f q h
chains P Q Outcome.throws k h f = tt
chains P Q (Outcome.undefined q) k h f = tt

routes_one :
    (r : Router) (i : ℕ) (o : Option AsyncNetworkInterface)
    → get_elem? r.interfaces i ≡ o
    → i < length r.interfaces
    → OnReturn (λ p. Routed r p (queue_of o) (λ j. i == j)) (route_interface r i o)
routes_one r i none e l = absurd (beyond r.interfaces i e l)
routes_one r i (some a) e l =
    chains (λ q. Delivered r q a.datagrams_out) (λ p. Routed r p a.datagrams_out (λ j. i == j))
      (route_queue r a.datagrams_out) (λ q. emptied i q (get_elem? q.interfaces i))
      (route_queue-Delivered r a.datagrams_out)
      (λ q d. clears r q i a.datagrams_out (get_elem? q.interfaces i) d refl l)

-- The datagrams of `n` interfaces from `i` on, and which interfaces these are.
abbrev pub queues : Router → ℕ → ℕ → List Ipv4Datagram
queues r i zero = []
queues r i (suc n) = queue_of (get_elem? r.interfaces i) ++ queues r (suc i) n

abbrev pub among : ℕ → ℕ → ℕ → Bool
among i zero j = false
among i (suc n) j = (i == j) || among (suc i) n j

-- What one round leaves of the later queues.
later_queue :
    (r q : Router) (ds : List Ipv4Datagram) (i j : ℕ) (o : Option AsyncNetworkInterface)
    → Routed r q ds (λ k. i == k)
    → get_elem? r.interfaces j ≡ o
    → i < j
    → j < length r.interfaces
    → queue_of (get_elem? q.interfaces j) ≡ queue_of o
later_queue r q ds i j none f e l w = absurd (beyond r.interfaces j e w)
later_queue r q ds i j (some a) f e l w =
    let (n, at, sent) = f.each j a e in
    let other : (i == j) ≡ false = ground arith in
    ap queue_of at ∙ ap (λ (b : Bool). if b then [] else a.datagrams_out) other

later_queues :
    (r q : Router) (ds : List Ipv4Datagram) (i j n : ℕ)
    → Routed r q ds (λ k. i == k)
    → i < j
    → j + n ≤ length r.interfaces
    → queues q j n ≡ queues r j n
later_queues r q ds i j zero f l w = refl
later_queues r q ds i j (suc n) f l w =
    ap (λ d. d ++ queues q (suc j) n)
      (later_queue r q ds i j (get_elem? r.interfaces j) f refl l (omega arith))
    ∙ ap (◌++◌ (queue_of (get_elem? r.interfaces j)))
        (later_queues r q ds i (suc j) n f (omega arith) (omega arith))

pub route_from-Routed :
    (r : Router) (i n : ℕ)
    → i + n ≤ length r.interfaces
    → OnReturn (λ p. Routed r p (queues r i n) (among i n)) (route_from r i n)
unfolding route_from
route_from-Routed r i zero h = no_round r (λ j. false) (λ j l. refl)
route_from-Routed r i (suc n) h =
    chains (λ q. Routed r q (queue_of (get_elem? r.interfaces i)) (λ j. i == j))
      (λ p. Routed r p (queues r i (suc n)) (among i (suc n)))
      (route_interface r i (get_elem? r.interfaces i)) (λ q. route_from q (suc i) n)
      (routes_one r i (get_elem? r.interfaces i) refl (omega arith))
      (λ q f.
        weaken (route_from q (suc i) n)
          (λ p g.
            Routed-trans r q p (queue_of (get_elem? r.interfaces i)) (queues r (suc i) n)
              (λ j. i == j) (among (suc i) n) f
              (subst (λ d. Routed q p d (among (suc i) n))
                (later_queues r q (queue_of (get_elem? r.interfaces i)) i (suc i) n f (omega arith)
                  (omega arith))
                g))
          (route_from-Routed q (suc i) n (omega (arith, f.size))))

pub among_all : (i n j : ℕ) → i ≤ j → j < i + n → among i n j ≡ true
among_all i zero j h l = absurd (omega arith)
among_all i (suc n) j h l = elim (Bool-cases (i == j)) [
  | inl e ↦ rw e refl
  | inr e ↦ rw e (among_all (suc i) n j (ground arith) (omega arith))
]
