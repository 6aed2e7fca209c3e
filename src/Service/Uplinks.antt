-- ===== src/Service/Uplinks.antt =====
-- What the filter lets through.
use dragino_fwd_src_lps8_mqt.Base.{
  ℕ, ◌/◌, ◌^◌, ◌<◌, ◌≡◌, ◌↔◌, refl, if◌then◌else◌, Bool, true, false, List, arith,
}
use dragino_fwd_src_lps8_mqt.Service.{
  FilterLevel, no_filter, include, exclude, Filter, Key, fport_key, devaddr_key, nwkid_key, nwk_id,
  drops, pkt_basic_filter,
}

-- A level lets a key through: the key is absent at the level `include`, present at `exclude`.
pub Lets : (Key → Bool) → FilterLevel → Key → Type 0
Lets exist no_filter key = Unit
Lets exist include key = exist key ≡ false
Lets exist exclude key = exist key ≡ true

drops_iff :
    (exist : Key → Bool) (level : FilterLevel) (key : Key)
    → (drops exist level key ≡ false) ↔ Lets exist level key
unfolding drops Lets
drops_iff exist no_filter key = ((λ h. tt), (λ h. refl))
drops_iff exist include key = ((λ h. h), (λ h. h))
drops_iff exist exclude key = ground arith

nwk_id_lem : (addr : ℕ) → addr < 2 ^ 32 → nwk_id addr ≡ addr / 2 ^ 25
unfolding nwk_id
nwk_id_lem addr h = omega arith

no_drop :
    (a b c : Bool)
    → (if a then true else if b then true else c) ≡ false
    → (a ≡ false) × (b ≡ false) × (c ≡ false)
no_drop a b c h = ground arith

-- An uplink passes the filter exactly when each of the three levels lets its key through: the port, the address, and the seven upper bits of the address as the network.
pub pkt_basic_filter_iff :
    (exist : Key → Bool) (name : List ℕ) (filter : Filter) (addr fport : ℕ)
    → addr < 2 ^ 32
    → (pkt_basic_filter exist name filter addr fport ≡ false) ↔ (
        Lets exist filter.fport (fport_key name fport)
        × Lets exist filter.devaddr (devaddr_key name addr)
        × Lets exist filter.nwkid (nwkid_key name (addr / 2 ^ 25)))
unfolding pkt_basic_filter
pkt_basic_filter_iff exist name filter addr fport h =
    let port = drops_iff exist filter.fport (fport_key name fport) in
    let device = drops_iff exist filter.devaddr (devaddr_key name addr) in
    let network = drops_iff exist filter.nwkid (nwkid_key name (addr / 2 ^ 25)) in
    rw (nwk_id_lem addr h) (
      (λ passes. let (a, b, c) = no_drop _ _ _ passes in (port.0 a, device.0 b, network.0 c)),
      (λ lets. let (a, b, c) = lets in rw (port.1 a, device.1 b, network.1 c) refl),
    )
