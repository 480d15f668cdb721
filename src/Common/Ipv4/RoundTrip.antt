-- ===== src/Common/Ipv4/RoundTrip.antt =====
-- An address that common/src/ebus/ipv4.cpp writes, it reads back.
use amiga_drivers.Prelude.{
  ℕ, ◌+◌, ◌*◌, ◌/◌, ◌%◌, ◌^◌, ◌<◌, ◌≡◌, refl, Bool, true, false, not, ◌&&◌, Option, none, some,
  List, [], ◌∷◌, ◌++◌, to_string, length, ◌==◌, ==_iff, bit_and, bit_or, bit_or-add, bit_and-ones,
  ap, ◌∙◌, arith, octets_pass, octet_passes,
}
use amiga_drivers.Common.Ipv4.{split, parse_octet, parse_parts, parse_ipv4, format_ipv4}

abbrev no_dot : List ℕ → Bool
no_dot [] = true
no_dot (c ∷ cs) = not (c == 46) && no_dot cs

abbrev is_value : Option ℕ → ℕ → Bool
is_value none o = false
is_value (some v) o = v == o

is_value_sound : (r : Option ℕ) (o : ℕ) → is_value r o ≡ true → r ≡ some o
is_value_sound none o h = absurd (cc h)
is_value_sound (some v) o h = ap some ((==_iff v o).0 h)

octets_have_no_dot : octets_pass (λ o. no_dot (to_string o)) 256 ≡ true
unfolding octets_pass
octets_have_no_dot = refl

octets_read_back : octets_pass (λ o. is_value (parse_octet (to_string o)) o) 256 ≡ true
unfolding octets_pass
octets_read_back = refl

octet_no_dot : (o : ℕ) → o < 256 → no_dot (to_string o) ≡ true
octet_no_dot o h = octet_passes (λ o. no_dot (to_string o)) 256 o h octets_have_no_dot

octet_value : (o : ℕ) → o < 256 → parse_octet (to_string o) ≡ some o
octet_value o h =
    is_value_sound _ o
      (octet_passes (λ o. is_value (parse_octet (to_string o)) o) 256 o h octets_read_back)

split-dot :
    (xs rest : List ℕ) → no_dot xs ≡ true → split (xs ++ (46 ∷ rest)) 46 ≡ xs ∷ split rest 46
split-dot [] rest h = refl
split-dot (c ∷ cs) rest h = ground (arith, split-dot cs rest)

split-end : (xs : List ℕ) → no_dot xs ≡ true → split xs 46 ≡ xs ∷ []
split-end [] h = refl
split-end (c ∷ cs) h = ground (arith, split-end cs)

-- One more part of the loop.
parse_parts-octet :
    (o value : ℕ) (rest : List (List ℕ))
    → o < 256
    → value < 2 ^ 24
    → parse_parts (to_string o ∷ rest) value ≡ parse_parts rest (value * 2 ^ 8 + o)
unfolding parse_parts
parse_parts-octet o value rest h v =
    let shifted : value * 2 ^ 8 % 2 ^ 32 ≡ value * 2 ^ 8 = omega arith in
    let joined : bit_or (value * 2 ^ 8 % 2 ^ 32) o ≡ value * 2 ^ 8 + o =
      bit_or-add 8 (value * 2 ^ 8 % 2 ^ 32) o h (omega arith) ∙ ap (λ x. x + o) shifted in
    ap
      (λ r. elim r [
        | none ↦ none
        | some octet ↦ parse_parts rest (bit_or (value * 2 ^ 8 % 2 ^ 32) octet)
      ])
      (octet_value o h)
    ∙ ap (parse_parts rest) joined

-- The text of four octets.
dotted : (a b c d : ℕ) → List ℕ
dotted a b c d = to_string a ++ (46 ∷ (to_string b ++ (46 ∷ (to_string c ++ (46 ∷ to_string d)))))

split-dotted :
    (a b c d : ℕ)
    → a < 256
    → b < 256
    → c < 256
    → d < 256
    → split (dotted a b c d) 46 ≡ to_string a ∷ (to_string b ∷ (to_string c ∷ (to_string d ∷ [])))
unfolding dotted
split-dotted a b c d ha hb hc hd =
    split-dot (to_string a) _ (octet_no_dot a ha)
    ∙ ap (λ r. to_string a ∷ r)
        (split-dot (to_string b) _ (octet_no_dot b hb)
          ∙ ap (λ r. to_string b ∷ r)
              (split-dot (to_string c) _ (octet_no_dot c hc)
                ∙ ap (λ r. to_string c ∷ r) (split-end (to_string d) (octet_no_dot d hd))))

parse_parts-dotted :
    (a b c d : ℕ)
    → a < 256
    → b < 256
    → c < 256
    → d < 256
    → parse_parts (to_string a ∷ (to_string b ∷ (to_string c ∷ (to_string d ∷ [])))) 0
      ≡ some (((a * 2 ^ 8 + b) * 2 ^ 8 + c) * 2 ^ 8 + d)
unfolding parse_parts
parse_parts-dotted a b c d ha hb hc hd =
    let sums : (((0 * 2 ^ 8 + a) * 2 ^ 8 + b) * 2 ^ 8 + c) * 2 ^ 8 + d
        ≡ ((a * 2 ^ 8 + b) * 2 ^ 8 + c) * 2 ^ 8 + d =
      omega arith in
    parse_parts-octet a 0 (to_string b ∷ (to_string c ∷ (to_string d ∷ []))) ha (omega arith)
    ∙ parse_parts-octet b (0 * 2 ^ 8 + a) (to_string c ∷ (to_string d ∷ [])) hb (omega arith)
    ∙ parse_parts-octet c ((0 * 2 ^ 8 + a) * 2 ^ 8 + b) (to_string d ∷ []) hc (omega arith)
    ∙ parse_parts-octet d (((0 * 2 ^ 8 + a) * 2 ^ 8 + b) * 2 ^ 8 + c) [] hd (omega arith)
    ∙ ap some sums

parse_of_split :
    (text : List ℕ) (parts : List (List ℕ))
    → split text 46 ≡ parts
    → length parts ≡ 4
    → parse_ipv4 text ≡ parse_parts parts 0
unfolding parse_ipv4
parse_of_split text parts e l = ground (arith, e, l)

parse_dotted :
    (a b c d : ℕ)
    → a < 256
    → b < 256
    → c < 256
    → d < 256
    → parse_ipv4 (dotted a b c d) ≡ some (((a * 2 ^ 8 + b) * 2 ^ 8 + c) * 2 ^ 8 + d)
parse_dotted a b c d ha hb hc hd =
    parse_of_split (dotted a b c d)
      (to_string a ∷ (to_string b ∷ (to_string c ∷ (to_string d ∷ []))))
      (split-dotted a b c d ha hb hc hd) refl
    ∙ parse_parts-dotted a b c d ha hb hc hd

format_of_masks :
    (v : ℕ)
    → format_ipv4 v
      ≡ dotted
          (bit_and (v / 2 ^ 24) 255)
          (bit_and (v / 2 ^ 16) 255)
          (bit_and (v / 2 ^ 8) 255)
          (bit_and v 255)
unfolding format_ipv4 dotted
format_of_masks v = refl

dotted_eq :
    {a b c d a2 b2 c2 d2 : ℕ}
    → a ≡ a2
    → b ≡ b2
    → c ≡ c2
    → d ≡ d2
    → dotted a b c d ≡ dotted a2 b2 c2 d2
dotted_eq p q r s = cc (p, q, r, s)

format_ipv4-dotted :
    (v : ℕ)
    → format_ipv4 v ≡ dotted (v / 2 ^ 24 % 256) (v / 2 ^ 16 % 256) (v / 2 ^ 8 % 256) (v % 256)
format_ipv4-dotted v =
    format_of_masks v
    ∙ dotted_eq (bit_and-ones 8 (v / 2 ^ 24)) (bit_and-ones 8 (v / 2 ^ 16))
        (bit_and-ones 8 (v / 2 ^ 8)) (bit_and-ones 8 v)

-- Every address below 2^32 is read back from its own text.
pub parse_ipv4-format_ipv4 : (v : ℕ) → v < 2 ^ 32 → parse_ipv4 (format_ipv4 v) ≡ some v
parse_ipv4-format_ipv4 v h =
    let a = v / 2 ^ 24 % 256 in
    let b = v / 2 ^ 16 % 256 in
    let c = v / 2 ^ 8 % 256 in
    let d = v % 256 in
    let whole : ((a * 2 ^ 8 + b) * 2 ^ 8 + c) * 2 ^ 8 + d ≡ v = omega arith in
    ap parse_ipv4 (format_ipv4-dotted v)
    ∙ parse_dotted a b c d (omega arith) (omega arith) (omega arith) (omega arith)
    ∙ ap some whole
