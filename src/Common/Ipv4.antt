-- ===== src/Common/Ipv4.antt =====
-- common/src/ebus/ipv4.cpp, and `Split` of common/include/string_util.h: the addresses of the GigE cameras.
-- Of a message only its kind is kept; the list of host addresses is in the text of one message alone.
pub mod RoundTrip
pub mod Masks
pub mod SetIp
use amiga_drivers.Prelude.{
  ℕ, zero, suc, ◌+◌, ◌-◌, ◌*◌, ◌/◌, ◌%◌, ◌^◌, bit_and, bit_or, Bool, true, false, not, ◌&&◌, ◌||◌,
  Option, none, some, List, [], ◌∷◌, ◌++◌, length, to_string, ltb, leb, ◌==◌, if◌then◌else◌,
}

-- The byte before the first part.
abbrev push_front : ℕ → List (List ℕ) → List (List ℕ)
push_front c [] = (c ∷ []) ∷ []
push_front c (t ∷ ts) = (c ∷ t) ∷ ts

abbrev pub split : List ℕ → ℕ → List (List ℕ)
split [] d = [] ∷ []
split (c ∷ cs) d = let rest = split cs d in if c == d then [] ∷ rest else push_front c rest

abbrev pub all_digits : List ℕ → Bool
all_digits [] = true
all_digits (c ∷ cs) = (leb 48 c && leb c 57) && all_digits cs

-- `std::stoi` on digits.
abbrev pub stoi : List ℕ → ℕ → ℕ
stoi [] n = n
stoi (c ∷ cs) n = stoi cs (n * 10 + (c - 48))

abbrev leading_zero : List ℕ → Bool
leading_zero (c ∷ d ∷ cs) = c == 48
leading_zero _ = false

-- The body of the loop over the parts.
abbrev pub parse_octet : List ℕ → Option ℕ
parse_octet part =
    let octet = stoi part 0 in
    if ((length part == 0) || ltb 3 (length part)) || (not (all_digits part) || leading_zero part)
    then none
    else if ltb 255 octet
    then none
    else some octet

unfoldable pub parse_parts : List (List ℕ) → ℕ → Option ℕ
parse_parts [] value = some value
parse_parts (part ∷ rest) value = elim (parse_octet part) [
  | none ↦ none
  | some octet ↦ parse_parts rest (bit_or (value * 2 ^ 8 % 2 ^ 32) octet)
]

unfoldable pub parse_ipv4 : List ℕ → Option ℕ
parse_ipv4 text =
    let parts = split text 46 in if length parts == 4 then parse_parts parts 0 else none

unfoldable pub format_ipv4 : ℕ → List ℕ
format_ipv4 v =
    to_string (bit_and (v / 2 ^ 24) 255)
    ++ (46
        ∷ (to_string (bit_and (v / 2 ^ 16) 255)
            ++ (46 ∷ (to_string (bit_and (v / 2 ^ 8) 255) ++ (46 ∷ to_string (bit_and v 255))))))

-- `~x` of a uint32.
abbrev pub not_u32 : ℕ → ℕ
not_u32 x = 2 ^ 32 - 1 - x

abbrev pub is_contiguous_mask : ℕ → Bool
is_contiguous_mask mask = bit_and (not_u32 mask) ((not_u32 mask + 1) % 2 ^ 32) == 0

-- The loop over the 32 bits, on the bits that are left.
abbrev pub leading_ones : ℕ → ℕ → ℕ
leading_ones zero mask = 0
leading_ones (suc bits) mask =
    let rest = leading_ones bits mask in if not (bit_and mask (2 ^ bits) == 0) then suc rest else 0

-- none is the source's -1.
unfoldable pub prefix_length : ℕ → Option ℕ
prefix_length mask = if is_contiguous_mask mask then some (leading_ones 32 mask) else none

abbrev pub same_subnet : ℕ → ℕ → ℕ → Bool
same_subnet a b mask = bit_and a mask == bit_and b mask

unfoldable pub is_usable_host : ℕ → ℕ → Bool
is_usable_host ip mask =
    if ip == 0
    then false
    else if (ip / 2 ^ 24 == 127) || leb 224 (ip / 2 ^ 24)
    then false
    else if not (mask == 4294967295) && not (mask == 0)
    then (if bit_and ip mask == ip
        then false
        else if bit_or ip (not_u32 mask) == ip
        then false
        else true)
    else true

pub record HostAddress : Type 0 where
  pub ip : List ℕ
  pub subnet_mask : List ℕ

-- The kinds of the messages; none is "".
pub data SetIpError : Type 0 where
  bad_ip : SetIpError
  bad_mask : SetIpError
  bad_gateway : SetIpError
  mask_range : SetIpError
  unusable_host : SetIpError
  gateway_elsewhere : SetIpError
  gateway_is_camera : SetIpError
  host_address_itself : SetIpError
  unreachable : SetIpError

-- The loop over the host's addresses; an address that does not parse is passed over.
unfoldable pub scan_hosts : ℕ → ℕ → List HostAddress → Bool → Bool → Option SetIpError
scan_hosts ip mask [] reachable allow_foreign_subnet =
    if not reachable && not allow_foreign_subnet then some SetIpError.unreachable else none
scan_hosts ip mask (h ∷ hs) reachable allow_foreign_subnet = elim (parse_ipv4 h.ip) [
  | none ↦ scan_hosts ip mask hs reachable allow_foreign_subnet
  | some h_ip ↦ elim (parse_ipv4 h.subnet_mask) [
    | none ↦ scan_hosts ip mask hs reachable allow_foreign_subnet
    | some h_mask ↦
        let rest =
          scan_hosts ip mask hs
            (reachable || (same_subnet h_ip ip h_mask && same_subnet h_ip ip mask))
            allow_foreign_subnet in
        if h_ip == ip then some SetIpError.host_address_itself else rest
  ]
]

-- The checks on the three values.
unfoldable pub validate_values : ℕ → ℕ → ℕ → List HostAddress → Bool → Option SetIpError
validate_values ip mask gateway host_addresses allow_foreign_subnet =
    let hosts = scan_hosts ip mask host_addresses false allow_foreign_subnet in
    elim (prefix_length mask) [
      | none ↦ some SetIpError.mask_range
      | some prefix ↦
          if ltb prefix 8 || ltb 30 prefix
          then some SetIpError.mask_range
          else if not (is_usable_host ip mask)
          then some SetIpError.unusable_host
          else if not (gateway == 0)
          then (if not (same_subnet gateway ip mask) || not (is_usable_host gateway mask)
              then some SetIpError.gateway_elsewhere
              else if gateway == ip
              then some SetIpError.gateway_is_camera
              else hosts)
          else hosts
    ]

-- `ValidateSetIp(ip, subnet_mask, gateway, host_addresses, allow_foreign_subnet)`.
unfoldable pub validate_set_ip :
    List ℕ → List ℕ → List ℕ → List HostAddress → Bool → Option SetIpError
validate_set_ip ip subnet_mask gateway host_addresses allow_foreign_subnet = elim (parse_ipv4 ip) [
  | none ↦ some SetIpError.bad_ip
  | some ip_v ↦ elim (parse_ipv4 subnet_mask) [
    | none ↦ some SetIpError.bad_mask
    | some mask_v ↦ elim (parse_ipv4 gateway) [
      | none ↦ some SetIpError.bad_gateway
      | some gw_v ↦ validate_values ip_v mask_v gw_v host_addresses allow_foreign_subnet
    ]
  ]
]
