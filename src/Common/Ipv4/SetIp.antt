-- ===== src/Common/Ipv4/SetIp.antt =====
-- What common/src/ebus/ipv4.cpp lets be set as the address of a camera.
use amiga_drivers.Prelude.{
  ℕ, ◌/◌, ◌^◌, ◌<◌, ◌≤◌, ◌≡◌, ◌≢◌, ◌⊎◌, sym, ap, ◌∙◌, subst, bit_and, Bool-cases, ==_iff, Bool,
  true, false, not, ◌&&◌, ◌||◌, Option-cases, none, some, inl, inr, List, [], ◌∷◌, ◌==◌, arith,
}
use amiga_drivers.Common.Ipv4.{
  HostAddress, parse_ipv4, prefix_length, same_subnet, is_usable_host, scan_hosts, validate_values,
  validate_set_ip,
}
use amiga_drivers.Common.Ipv4.Masks.{
  block, mask_of, prefix_length-mask, same_subnet-block, Usable, is_usable_host-Usable,
  parse_ipv4_small,
}

-- A host address of which both parts parse, tested.
abbrev on_values : (ℕ → ℕ → Bool) → HostAddress → Bool
on_values test h = elim (parse_ipv4 h.ip) [
  | none ↦ false
  | some ip ↦ elim (parse_ipv4 h.subnet_mask) [ none ↦ false | some mask ↦ test ip mask ]
]

-- The host has this very address.
unfoldable pub owns : ℕ → HostAddress → Bool
owns ip h = on_values (λ h_ip h_mask. h_ip == ip) h

-- The host and the camera agree that they share a subnet.
unfoldable pub reaches : ℕ → ℕ → HostAddress → Bool
reaches ip mask h =
    on_values (λ h_ip h_mask. same_subnet h_ip ip h_mask && same_subnet h_ip ip mask) h

abbrev pub any_host : (HostAddress → Bool) → List HostAddress → Bool
any_host test [] = false
any_host test (h ∷ hs) = test h || any_host test hs

-- One address of the host, in the loop.
scan_one :
    (ip mask : ℕ) (h : HostAddress) (hs : List HostAddress) (reachable allow : Bool)
    → scan_hosts ip mask (h ∷ hs) reachable allow ≡ none
    → (owns ip h ≡ false) × (scan_hosts ip mask hs (reachable || reaches ip mask h) allow ≡ none)
unfolding scan_hosts owns reaches
scan_one ip mask h hs reachable allow e = ground arith

scan_hosts-none :
    (ip mask : ℕ) (hs : List HostAddress) (reachable allow : Bool)
    → scan_hosts ip mask hs reachable allow ≡ none
    → (any_host (owns ip) hs ≡ false)
      × ((allow || (reachable || any_host (reaches ip mask) hs)) ≡ true)
unfolding scan_hosts
scan_hosts-none ip mask [] reachable allow e = ground arith
scan_hosts-none ip mask (h ∷ hs) reachable allow e =
    let one = scan_one ip mask h hs reachable allow e in
    ground (arith, one, scan_hosts-none ip mask hs (reachable || reaches ip mask h) allow one.1)

-- The host has an address of the camera's block, and agrees with the camera's under the host's own mask.
abbrev pub neighbour : ℕ → ℕ → HostAddress → Bool
neighbour ip size h =
    on_values
      (λ h_ip h_mask. (bit_and h_ip h_mask == bit_and ip h_mask) && (h_ip / size == ip / size)) h

neighbour_of_reaches :
    (ip prefix : ℕ) (h : HostAddress)
    → ip < 2 ^ 32
    → prefix ≤ 32
    → reaches ip (mask_of prefix) h ≡ true
    → neighbour ip (block prefix) h ≡ true
unfolding reaches
neighbour_of_reaches ip prefix h small range e = elim (Option-cases (parse_ipv4 h.ip)) [
  | inl bad ↦ ground (arith, bad, e)
  | inr (h_ip, x) ↦ elim (Option-cases (parse_ipv4 h.subnet_mask)) [
    | inl bad ↦ ground (arith, x, bad, e)
    | inr (h_mask, y) ↦
        let shared : same_subnet h_ip ip (mask_of prefix) ≡ true = ground (arith, x, y, e) in
        ground (
          arith,
          x,
          y,
          e,
          same_subnet-block prefix range h_ip ip (parse_ipv4_small h.ip h_ip x) small shared,
        )
  ]
]

any_neighbour :
    (ip prefix : ℕ) (hs : List HostAddress)
    → ip < 2 ^ 32
    → prefix ≤ 32
    → any_host (reaches ip (mask_of prefix)) hs ≡ true
    → any_host (neighbour ip (block prefix)) hs ≡ true
any_neighbour ip prefix [] small range e = e
any_neighbour ip prefix (h ∷ hs) small range e = elim (Bool-cases (reaches ip (mask_of prefix) h)) [
  | inl here ↦ ground (arith, neighbour_of_reaches ip prefix h small range here)
  | inr later ↦
      ground (arith, later, any_neighbour ip prefix hs small range (ground (arith, later, e)))
]

-- No gateway, or another usable address of the camera's block.
abbrev pub GatewayFits : ℕ → ℕ → ℕ → Type 0
GatewayFits prefix ip gw =
    (gw ≡ 0) ⊎ ((gw / block prefix ≡ ip / block prefix) × (Usable prefix gw × (gw ≢ ip)))

gateway_fits :
    (ip prefix gw : ℕ)
    → ip < 2 ^ 32
    → gw < 2 ^ 32
    → 8 ≤ prefix
    → prefix ≤ 30
    → ((gw == 0)
        || ((same_subnet gw ip (mask_of prefix) && is_usable_host gw (mask_of prefix))
            && not (gw == ip)))
      ≡ true
    → GatewayFits prefix ip gw
gateway_fits ip prefix gw small gw_small low high e = elim (Bool-cases (gw == 0)) [
  | inl no_gateway ↦ inl ((==_iff gw 0).0 no_gateway)
  | inr set ↦ inr (
    same_subnet-block prefix (omega (arith, high)) gw ip gw_small small (ground (arith, set, e)),
    (
      is_usable_host-Usable gw prefix gw_small low high (ground (arith, set, e)),
      ground (arith, set, e),
    ),
  )
]

-- What an accepted setting has.
pub record Accepted (ip subnet_mask gateway : List ℕ) (hosts : List HostAddress) (allow : Bool)
    : Type 0 where
  pub ip_v : ℕ
  pub gw_v : ℕ
  pub prefix : ℕ
  pub ip_parsed : parse_ipv4 ip ≡ some ip_v
  pub mask_parsed : parse_ipv4 subnet_mask ≡ some (mask_of prefix)
  pub gateway_parsed : parse_ipv4 gateway ≡ some gw_v
  pub prefix_low : 8 ≤ prefix
  pub prefix_high : prefix ≤ 30
  pub usable : Usable prefix ip_v
  pub gateway_placed : GatewayFits prefix ip_v gw_v
  pub not_own : any_host (owns ip_v) hosts ≡ false
  pub reached : (allow || any_host (neighbour ip_v (block prefix)) hosts) ≡ true

values_accepted :
    (ip mask gw : ℕ) (hosts : List HostAddress) (allow : Bool)
    → validate_values ip mask gw hosts allow ≡ none
    → (prefix : ℕ) × (prefix_length mask ≡ some prefix)
      × (8 ≤ prefix)
      × (prefix ≤ 30)
      × (is_usable_host ip mask ≡ true)
      × (((gw == 0) || ((same_subnet gw ip mask && is_usable_host gw mask) && not (gw == ip)))
          ≡ true)
      × (scan_hosts ip mask hosts false allow ≡ none)
unfolding validate_values
values_accepted ip mask gw hosts allow e = elim (Option-cases (prefix_length mask)) [
  | inl missing ↦ absurd (ground (arith, missing))
  | inr (prefix, known) ↦ (
    prefix,
    known,
    ground (arith, known),
    ground (arith, known),
    ground (arith, known),
    ground (arith, known),
    ground (arith, known),
  )
]

parsed :
    (ip subnet_mask gateway : List ℕ) (hosts : List HostAddress) (allow : Bool)
    → validate_set_ip ip subnet_mask gateway hosts allow ≡ none
    → (a : ℕ) × (m : ℕ) × (g : ℕ) × (parse_ipv4 ip ≡ some a)
      × (parse_ipv4 subnet_mask ≡ some m)
      × (parse_ipv4 gateway ≡ some g)
      × (validate_values a m g hosts allow ≡ none)
unfolding validate_set_ip
parsed ip subnet_mask gateway hosts allow e = elim (Option-cases (parse_ipv4 ip)) [
  | inl bad ↦ absurd (ground (arith, bad))
  | inr (a, x) ↦ elim (Option-cases (parse_ipv4 subnet_mask)) [
    | inl bad ↦ absurd (ground (arith, x, bad))
    | inr (m, y) ↦ elim (Option-cases (parse_ipv4 gateway)) [
      | inl bad ↦ absurd (ground (arith, x, y, bad))
      | inr (g, z) ↦ (a, m, g, x, y, z, ground (arith, x, y, z))
    ]
  ]
]

-- An accepted setting is an address, a mask of between 8 and 30 leading ones and no others, and a gateway.
-- A block is the addresses that agree in those leading bits. The address is not 0, no loopback, multicast
-- or reserved address, and neither the first nor the last of its block; the gateway is 0, or another
-- such address of the same block. No address of the host adapter is the camera's own, and, unless a
-- foreign subnet is allowed, some address of the adapter lies in the block and agrees with the camera's
-- under the adapter's own mask. An entry of the adapter that does not parse is passed over.
pub validate_set_ip-Accepted :
    (ip subnet_mask gateway : List ℕ) (hosts : List HostAddress) (allow : Bool)
    → validate_set_ip ip subnet_mask gateway hosts allow ≡ none
    → Accepted ip subnet_mask gateway hosts allow
validate_set_ip-Accepted ip subnet_mask gateway hosts allow e =
    let (a, m, g, x, y, z, v) = parsed ip subnet_mask gateway hosts allow e in
    let (prefix, known, low, high, usable, fits, scanned) = values_accepted a m g hosts allow v in
    let s = scan_hosts-none a m hosts false allow scanned in
    let small = parse_ipv4_small ip a x in
    let range : prefix ≤ 32 = omega (arith, high) in
    let ones = (prefix_length-mask m prefix (parse_ipv4_small subnet_mask m y) known).0 in
    record {
      ip_v = a;
      gw_v = g;
      prefix = prefix;
      ip_parsed = x;
      mask_parsed = y ∙ ap some ones;
      gateway_parsed = z;
      prefix_low = low;
      prefix_high = high;
      usable =
          is_usable_host-Usable a prefix small low high (ap (is_usable_host a) (sym ones) ∙ usable);
      gateway_placed = gateway_fits a prefix g small (parse_ipv4_small gateway g z) low high (
          subst
            (λ mask.
              ((g == 0) || ((same_subnet g a mask && is_usable_host g mask) && not (g == a)))
              ≡ true)
            ones fits);
      not_own = s.0;
      reached = elim (Bool-cases allow) [
        | inl foreign ↦ ground (arith, foreign)
        | inr native ↦
            let near : any_host (reaches a m) hosts ≡ true = ground (arith, native, s.1) in
            ground (
              arith,
              any_neighbour a prefix hosts small range
                  (subst (λ mask. any_host (reaches a mask) hosts ≡ true) ones near),
            )
      ];
    }
