-- ===== src/Kea/Blocklist.antt =====
-- internal/adapters/kea/blocklist.go: the client class whose members get no lease.
use Prim.Native.String
use sgsu.Prelude.{
  Bool, false, not, String, List, [], ◌∷◌, ◌++◌, str_eq, keep, map, ◌≡◌, refl, ap, ◌∙◌, sym,
  Bool-cases, inl, inr,
}
use sgsu.Prelude.Json.{
  Json, object, string, list, Fields, empty, field, get, set, unset, as_text, as_list, of_elements,
  get-set, get-unset, elements-of_elements,
}

abbrev join_or : List String → String
join_or [] = ""
join_or (s ∷ []) = s
join_or (s ∷ t ∷ ss) = String.◌++◌ s (String.◌++◌ " or " (join_or (t ∷ ss)))

-- `DropClassTest`
unfoldable pub drop_class_test : List String → String
drop_class_test macs =
    join_or (map (λ m. String.◌++◌ "hexstring(pkt4.mac, ':') == '" (String.◌++◌ m "'")) macs)

-- Whether a class is the managed one
unfoldable pub is_drop : Json → Bool
is_drop (object m) = str_eq (as_text (get "name" m)) "DROP"
is_drop _ = false

-- The class for the addresses, if there are any
unfoldable pub drop_class : List String → List Json
drop_class [] = []
drop_class (m ∷ ms) =
    object (field "name" (string "DROP") (field "test" (string (drop_class_test (m ∷ ms))) empty))
    ∷ []

abbrev pub client_classes : Fields → List Json
client_classes dhcp4 = as_list (get "client-classes" dhcp4)

-- The end of `SetDropClass`
unfoldable pub put_classes : Fields → List Json → Fields
put_classes dhcp4 [] = unset "client-classes" dhcp4
put_classes dhcp4 (c ∷ cs) = set "client-classes" (list (of_elements (c ∷ cs))) dhcp4

-- `SetDropClass`
unfoldable pub set_drop_class : Fields → List String → Fields
set_drop_class dhcp4 macs =
    put_classes dhcp4 (keep (λ c. not (is_drop c)) (client_classes dhcp4) ++ drop_class macs)

classes-put : (d : Fields) (cs : List Json) → client_classes (put_classes d cs) ≡ cs
unfolding put_classes
classes-put d [] = ap as_list (get-unset "client-classes" "client-classes" d)
classes-put d (c ∷ cs) =
    ap as_list (get-set "client-classes" "client-classes" _ d) ∙ elements-of_elements (c ∷ cs)

keep-drop_class : (macs : List String) → keep (λ c. not (is_drop c)) (drop_class macs) ≡ []
unfolding drop_class is_drop get
keep-drop_class [] = refl
keep-drop_class (m ∷ ms) = refl

keep_twice :
    (cs ds : List Json)
    → keep (λ c. not (is_drop c)) ds ≡ []
    → keep (λ c. not (is_drop c)) (keep (λ c. not (is_drop c)) cs ++ ds)
      ≡ keep (λ c. not (is_drop c)) cs
keep_twice [] ds h = h
keep_twice (c ∷ cs) ds h = elim (Bool-cases (is_drop c)) [
  | inl e ↦ rw (e) (keep_twice cs ds h)
  | inr e ↦ rw (e) (rw (e) (ap (λ xs. c ∷ xs) (keep_twice cs ds h)))
]

-- `SetDropClass` keeps the classes of other names in their order, puts one class for the given
-- addresses after them, or none for none, and so forgets what an earlier call has put there.
set_drop_class_lem :
    (d : Fields) (old macs : List String)
    → (client_classes (set_drop_class d macs)
        ≡ keep (λ c. not (is_drop c)) (client_classes d) ++ drop_class macs)
      × (client_classes (set_drop_class (set_drop_class d old) macs)
          ≡ client_classes (set_drop_class d macs))
unfolding set_drop_class
set_drop_class_lem d old macs = (
  classes-put d _,
  classes-put _ _
      ∙ ap (λ cs. keep (λ c. not (is_drop c)) cs ++ drop_class macs) (classes-put d _)
      ∙ ap (λ cs. cs ++ drop_class macs)
          (keep_twice (client_classes d) (drop_class old) (keep-drop_class old))
      ∙ sym (classes-put d _),
)
