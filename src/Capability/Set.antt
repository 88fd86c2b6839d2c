-- ===== src/Capability/Set.antt =====
-- internal/domain/capability/set.go: sets of capabilities, keyed by their texts. Where the code
-- changes a set through its pointer, the new set is returned.
pub mod Laws
use preflight.Base.{
  String, Bool, Fallible, List, [], false, if◌then◌else◌, length, map, not, returns, str_leb, true,
  ℕ, ◌&&◌, ◌>>=◌, ◌||◌, ◌∷◌,
}
use preflight.GoMap.{put, lookup, remove, has}
use preflight.Capability.{
  Capability, matches, CapabilityError, capability_is_zero, is_dangerous, parse_capability,
}

pub record Set : Type 0 where
  pub capabilities : List (String × Capability)

unfoldable pub new_set : Set
new_set = record { capabilities = [] }

unfoldable pub add_capability : Set → Capability → Set
unfolding capability_is_zero
add_capability s c =
    if capability_is_zero c then s else record { capabilities = put c.raw c s.capabilities }

-- `for _, c := range caps { s.Add(c) }`
unfoldable pub add_all : Set → List Capability → Set
unfolding add_capability
add_all s [] = s
add_all s (c ∷ cs) = add_all (add_capability s c) cs

abbrev pub new_set_from : List Capability → Set
new_set_from cs = add_all new_set cs

unfoldable pub parse_set_into : Set → List String → Fallible CapabilityError Set
unfolding add_capability
parse_set_into s [] = returns s
parse_set_into s (t ∷ ts) = parse_capability t >>= λ c. parse_set_into (add_capability s c) ts

abbrev pub parse_set : List String → Fallible CapabilityError Set
parse_set ts = parse_set_into new_set ts

unfoldable pub remove_capability : Set → Capability → Set
remove_capability s c = record { capabilities = remove c.raw s.capabilities }

unfoldable pub contains : Set → Capability → Bool
contains s c = has c.raw s.capabilities

unfoldable pub contains_any : Set → List Capability → Bool
unfolding contains
contains_any s [] = false
contains_any s (c ∷ cs) = contains s c || contains_any s cs

unfoldable pub contains_all : Set → List Capability → Bool
unfolding contains
contains_all s [] = true
contains_all s (c ∷ cs) = contains s c && contains_all s cs

-- `for _, cap := range s.capabilities`: the values, in some order.
unfoldable pub values : List (String × Capability) → List Capability
values [] = []
values ((k, c) ∷ m) = c ∷ values m

unfoldable pub any_matches : List Capability → Capability → Bool
any_matches [] c = false
any_matches (cap ∷ caps) c = matches cap c || any_matches caps c

unfoldable pub set_matches : Set → Capability → Bool
unfolding any_matches values
set_matches s c = any_matches (values s.capabilities) c

insert_by_raw : Capability → List Capability → List Capability
insert_by_raw c [] = c ∷ []
insert_by_raw c (d ∷ ds) = if str_leb c.raw d.raw then c ∷ d ∷ ds else d ∷ insert_by_raw c ds

sort_by_raw : List Capability → List Capability
unfolding insert_by_raw
sort_by_raw [] = []
sort_by_raw (c ∷ cs) = insert_by_raw c (sort_by_raw cs)

-- Sorted by the texts, which are all different.
unfoldable pub list_set : Set → List Capability
unfolding sort_by_raw values
list_set s = sort_by_raw (values s.capabilities)

unfoldable pub set_strings : Set → List String
unfolding list_set
set_strings s = map (λ (c : Capability). c.raw) (list_set s)

unfoldable pub set_count : Set → ℕ
set_count s = length s.capabilities

unfoldable pub keep_where : (Capability → Bool) → List Capability → List Capability
keep_where test [] = []
keep_where test (c ∷ cs) = let rest = keep_where test cs in if test c then c ∷ rest else rest

unfoldable pub dangerous_in : Set → List Capability
unfolding keep_where values is_dangerous
dangerous_in s = keep_where is_dangerous (values s.capabilities)

unfoldable pub union : Set → Set → Set
unfolding add_all new_set values
union s other = add_all (add_all new_set (values s.capabilities)) (values other.capabilities)

unfoldable pub intersection : Set → Set → Set
unfolding add_all new_set values keep_where contains
intersection s other = add_all new_set (keep_where (λ c. contains other c) (values s.capabilities))

unfoldable pub difference : Set → Set → Set
unfolding add_all new_set values keep_where contains
difference s other =
    add_all new_set (keep_where (λ c. not (contains other c)) (values s.capabilities))
