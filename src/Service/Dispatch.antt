-- ===== src/Service/Dispatch.antt =====
-- Which services are started, and what is stopped.
use dragino_fwd_src_lps8_mqt.Base.{ℕ, ◌+◌, ◌≡◌, refl, ap, List, [], ◌∷◌, ◌++◌, All, map}
use dragino_fwd_src_lps8_mqt.Service.{
  ServType, semtech, ttn, mqtt, pkt, relay, delay, gwtraf, Call, starts, stops, start_one, stop_one,
  service_start, service_stop,
}

-- The kinds that service_start has a case for.
abbrev pub HasCase : ServType → Type 0
HasCase semtech = Unit
HasCase pkt = Unit
HasCase relay = Unit
HasCase delay = Unit
HasCase mqtt = Unit
HasCase ttn = ⊥
HasCase gwtraf = ⊥

-- The call that ends what a call began.
abbrev pub ending : Call → Call
ending (starts t i) = stops t i
ending (stops t i) = stops t i

one_balanced : (t : ServType) (i : ℕ) → HasCase t → stop_one t i ≡ map ending (start_one t i)
unfolding stop_one start_one
one_balanced semtech i h = refl
one_balanced pkt i h = refl
one_balanced relay i h = refl
one_balanced delay i h = refl
one_balanced mqtt i h = refl
one_balanced ttn i h = absurd h
one_balanced gwtraf i h = absurd h

map-append : (xs ys : List Call) → map ending (xs ++ ys) ≡ map ending xs ++ map ending ys
map-append [] ys = refl
map-append (x ∷ xs) ys = ap (◌∷◌ (ending x)) (map-append xs ys)

-- If every service is of a kind that service_start has a case for, service_stop stops what service_start started, each service with the function of its kind and in the same order.
pub service_stop_balanced :
    (ts : List ServType) (i : ℕ)
    → All HasCase ts
    → service_stop ts i ≡ map ending (service_start ts i)
unfolding service_stop service_start
service_stop_balanced [] i h = refl
service_stop_balanced (t ∷ ts) i h =
    rw
      (
        one_balanced t i h.0,
        service_stop_balanced ts (i + 1) h.1,
        map-append (start_one t i) (service_start ts (i + 1)),
      )
      refl
