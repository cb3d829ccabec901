-- ===== src/Gateway/Unblock.antt =====
-- cmd/saguaro/firewall_block.go: taking back the first block.
use sgsu.Prelude.{
  Bool, true, false, not, String, List, [], ◌∷◌, ◌++◌, str_eq, if◌then◌else◌, keep, ◌≡◌, refl,
  arith, eq_refl,
}
use sgsu.Firewall.{Config, Alias, Rule}
use sgsu.Gateway.Block.{
  blocklist_alias, block_rule_name, new_blocklist, has_alias, has_rule, blocked, without_ip,
  is_empty, unblock_aliases, left_empty, unblocked,
}

keep-absent_alias :
    (xs : List Alias)
    → has_alias xs ≡ false
    → keep (λ al. not (str_eq al.name blocklist_alias)) xs ≡ xs
keep-absent_alias [] h = refl
keep-absent_alias (x ∷ xs) h = ground (arith, keep-absent_alias xs)

keep-absent_rule :
    (rs : List Rule) → has_rule rs ≡ false → keep (λ r. not (str_eq r.name block_rule_name)) rs ≡ rs
keep-absent_rule [] h = refl
keep-absent_rule (r ∷ rs) h = ground (arith, keep-absent_rule rs)

own_address : (ip : String) → (without_ip ip (new_blocklist ip)).values ≡ []
own_address ip = rw (eq_refl ip) refl

unblock_aliases-new :
    (ip : String) (xs : List Alias)
    → has_alias xs ≡ false
    → keep
        (λ al. not (str_eq al.name blocklist_alias))
        (unblock_aliases ip (xs ++ (new_blocklist ip ∷ [])))
      ≡ xs
unfolding unblock_aliases
unblock_aliases-new ip [] h = refl
unblock_aliases-new ip (x ∷ xs) h = ground (arith, unblock_aliases-new ip xs)

left_empty-new :
    (ip : String) (xs : List Alias) (empty : Bool)
    → left_empty ip empty (xs ++ (new_blocklist ip ∷ [])) ≡ true
unfolding left_empty
left_empty-new ip [] empty = rw (own_address ip) refl
left_empty-new ip (x ∷ xs) empty =
    left_empty-new ip xs
      (if str_eq x.name blocklist_alias then is_empty (without_ip ip x).values else empty)

pub unblocked-blocked :
    (ip : String) (c : Config)
    → has_alias c.aliases ≡ false
    → has_rule c.rules ≡ false
    → unblocked ip (blocked ip c) ≡ c
unfolding unblocked blocked
unblocked-blocked ip c no_alias no_rule =
    rw
      (
        no_alias,
        no_rule,
        left_empty-new ip c.aliases false,
        unblock_aliases-new ip c.aliases no_alias,
        keep-absent_rule c.rules no_rule,
      )
      refl
