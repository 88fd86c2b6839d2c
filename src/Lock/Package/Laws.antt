-- ===== src/Lock/Package/Laws.antt =====
-- The key of a package is read as its two parts.
use text.Mathlib.TextLemmas.{nil-append, cons-append}
use preflight.Base.{
  String, ap, contains_char, cut, cut-append, cut_full, false, refl, returns, some, str_eq, sym,
  ◌∙◌, ◌≡◌, Option,
}
use preflight.Lock.Package.{key_of, parse_package_key}

pub parse-key_of :
    (provider name : String)
    → contains_char b':' provider ≡ false
    → str_eq provider "" ≡ false
    → str_eq name "" ≡ false
    → parse_package_key (key_of provider name) ≡ returns (provider, name)
unfolding parse_package_key key_of
parse-key_of provider name plain named full =
    let parts : cut b':' (key_of provider name) ≡ some (provider, name) =
      rw (cons-append, nil-append) (cut-append b':' _ provider name refl plain) in
    rw (cut_full b':' (key_of provider name) _ parts, parts, named, full) refl

-- The packages of a provider whose name has no colon have different keys for different names.
pub key_of-injective :
    (p q m n : String)
    → contains_char b':' p ≡ false
    → contains_char b':' q ≡ false
    → key_of p m ≡ key_of q n
    → (p ≡ q) × (m ≡ n)
unfolding key_of
key_of-injective p q m n hp hq e =
    let l : cut b':' (key_of p m) ≡ some (p, m) =
      rw (cons-append, nil-append) (cut-append b':' _ p m refl hp) in
    let r : cut b':' (key_of q n) ≡ some (q, n) =
      rw (cons-append, nil-append) (cut-append b':' _ q n refl hq) in
    let same : ◌≡◌ {A = Option (String × String)} (some (p, m)) (some (q, n)) =
      sym l ∙ (ap (cut b':') e ∙ r) in
    (cc, cc)
