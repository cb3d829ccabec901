-- ===== src/Prelude/Net/Addresses.antt =====
-- The texts of addresses, as Go's package net reads them. An address is a number. One that is
-- written as IPv6 and embeds an IPv4 address is that IPv4 address, as `To4` makes it.
use Prim.Native.Nat.{ℕ, zero, suc, ◌+◌, ◌-◌, ◌*◌, ◌/◌, ◌%◌, ◌^◌}
use Prim.Native.String.{String}
use mathlib.Core.Bool.{Bool, true, false, ◌&&◌, ◌||◌}
use mathlib.Core.Option.{Option, none, some}
use mathlib.Core.List.{List, [], ◌∷◌, ◌++◌}
use sgsu.Prelude.Tests.{ltb, leb, ◌==◌, if◌then◌else◌}
use sgsu.Prelude.Lists.{length, take, drop}
use sgsu.Prelude.Text.{codes, between, is_digit}

pub data Ip : Type 0 where
  v4 : ℕ → Ip
  v6 : ℕ → Ip

-- The digits of a decimal field so far, as a number and by their count
pub record Field : Type 0 where
  pub value : ℕ
  pub digits : ℕ

-- `parseIPv4Fields`: `fields` are complete, `total` is their number, and `f` is being read.
abbrev pub v4_fields : (fields total : ℕ) → Field → List ℕ → Option ℕ
v4_fields fields total f [] =
    if fields == 3 && ltb 0 f.digits then some (total * 256 + f.value) else none
v4_fields fields total f (c ∷ cs) = elim (is_digit c) [
  | true ↦
      let value = f.value * 10 + (c - b'0') in
      elim ((f.digits == 1 && f.value == 0) || ltb 255 value) [
        | true ↦ none
        | false ↦ v4_fields fields total (record { value = value; digits = suc f.digits }) cs
      ]
  | false ↦ elim (c == b'.' && ltb 0 f.digits && ltb fields 3) [
    | true ↦ v4_fields (suc fields) (total * 256 + f.value) (record { value = 0; digits = 0 }) cs
    | false ↦ none
  ]
]

-- `parseIPv4`
unfoldable pub parse_v4 : List ℕ → Option ℕ
parse_v4 cs = v4_fields 0 0 (record { value = 0; digits = 0 }) cs

abbrev hex_digit : ℕ → Option ℕ
hex_digit c =
    if is_digit c
    then some (c - b'0')
    else if between b'a' b'f' c
    then some (c - b'a' + 10)
    else if between b'A' b'F' c
    then some (c - b'A' + 10)
    else none

-- A group of hexadecimal digits at the front, and what follows it
record Group : Type 0 where
  value : ℕ
  digits : ℕ
  rest : List ℕ

abbrev hex_group : (value digits : ℕ) → List ℕ → Group
hex_group value digits [] = record { value = value; digits = digits; rest = [] }
hex_group value digits (c ∷ cs) = elim (hex_digit c) [
  | none ↦ record { value = value; digits = digits; rest = c ∷ cs }
  | some d ↦ hex_group (value * 16 + d) (suc digits) cs
]

-- The groups that were read, and the position of the `::` among them
record Groups : Type 0 where
  groups : List ℕ
  ellipsis : Option ℕ

-- An IPv4 address in place of the last two groups
abbrev v4_tail : Groups → List ℕ → Option Groups
v4_tail g cs =
    let fits : Bool = elim g.ellipsis [
      | none ↦ length g.groups == 6
      | some _ ↦ leb (length g.groups) 6
    ] in
    elim (if fits then parse_v4 cs else none) [
      | none ↦ none
      | some n ↦ some (record g { groups = g.groups ++ (n / 65536 ∷ n % 65536 ∷ []) })
    ]

-- The loop of `parseIPv6`, for at most `left` further groups
abbrev v6_groups : (left : ℕ) → Groups → List ℕ → Option Groups
v6_groups zero g cs = none
v6_groups (suc left) g cs =
    let h = hex_group 0 0 cs in
    let g' = record g { groups = g.groups ++ (h.value ∷ []) } in
    elim (between 1 4 h.digits) [
      | false ↦ none
      | true ↦ elim h.rest [
        | [] ↦ some g'
        | c ∷ more ↦ elim (c == b'.') [
          | true ↦ v4_tail g cs
          | false ↦ elim (c == b':') [
            | false ↦ none
            | true ↦ elim more [
              | [] ↦ none
              | d ∷ after ↦ elim (d == b':') [
                | false ↦ v6_groups left g' (d ∷ after)
                | true ↦ elim g.ellipsis [
                  | some _ ↦ none
                  | none ↦
                      let g'' = record g' { ellipsis = some (length g'.groups) } in
                      elim after [ [] ↦ some g'' | e ∷ es ↦ v6_groups left g'' (e ∷ es) ]
                ]
              ]
            ]
          ]
        ]
      ]
    ]

abbrev zeros : ℕ → List ℕ
zeros zero = []
zeros (suc n) = 0 ∷ zeros n

-- The eight groups, with zeros in place of the `::`, which stands for at least one
abbrev expand : Groups → Option (List ℕ)
expand g =
    let n = length g.groups in
    elim g.ellipsis [
      | none ↦ if n == 8 then some g.groups else none
      | some p ↦
          if ltb n 8 then some (take p g.groups ++ zeros (8 - n) ++ drop p g.groups) else none
    ]

abbrev number : ℕ → List ℕ → ℕ
number n [] = n
number n (d ∷ ds) = number (n * 65536 + d) ds

-- The number of the address
abbrev finish : Option Groups → Option ℕ
finish none = none
finish (some g) = elim (expand g) [ none ↦ none | some ds ↦ some (number 0 ds) ]

-- `parseIPv6`; an address with a zone is none, as for `ParseIP`.
unfoldable pub parse_v6 : List ℕ → Option ℕ
parse_v6 (c ∷ d ∷ cs) =
    if c == b':' && d == b':'
    then elim cs [
      | [] ↦ some 0
      | e ∷ es ↦ finish (v6_groups 8 (record { groups = []; ellipsis = some 0 }) (e ∷ es))
    ]
    else finish (v6_groups 8 (record { groups = []; ellipsis = none }) (c ∷ d ∷ cs))
parse_v6 cs = finish (v6_groups 8 (record { groups = []; ellipsis = none }) cs)

-- The form of the address, by the mark that comes first, and the number
pub data Parsed : Type 0 where
  bad : Parsed
  plain : ℕ → Parsed
  long : ℕ → Parsed

abbrev pub parsed_v4 : Option ℕ → Parsed
parsed_v4 none = bad
parsed_v4 (some n) = plain n

abbrev parsed_v6 : Option ℕ → Parsed
parsed_v6 none = bad
parsed_v6 (some n) = long n

-- `netip.ParseAddr` without zones; the first argument is what is left to search for a mark.
abbrev pub parse_addr : List ℕ → List ℕ → Parsed
parse_addr [] cs = bad
parse_addr (m ∷ ms) cs = elim (m == b'.') [
  | true ↦ parsed_v4 (parse_v4 cs)
  | false ↦ elim (m == b':') [ true ↦ parsed_v6 (parse_v6 cs) | false ↦ parse_addr ms cs ]
]

-- An address of 128 bits, as `To4` reads it
abbrev pub of_long : ℕ → Ip
of_long n = if n / 2 ^ 32 == 0xffff then v4 (n % 2 ^ 32) else v6 n

abbrev pub to_ip : Parsed → Option Ip
to_ip bad = none
to_ip (plain n) = some (v4 n)
to_ip (long n) = some (of_long n)

-- `net.ParseIP`
unfoldable pub parse_ip : String → Option Ip
unfolding parse_v4 parse_v6
parse_ip s = to_ip (parse_addr (codes s) (codes s))

-- `ip.To4()`
abbrev pub to4 : Option Ip → Option ℕ
to4 none = none
to4 (some (v4 n)) = some n
to4 (some (v6 n)) = none
